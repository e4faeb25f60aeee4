-- ===== src/Conlock/Oneshot/Runs/Orders.antt =====
-- A whole life of a channel with the clocks of its cells, and the theorems there.
use forwardr.Base.{◌≡◌, ◌⊎◌, inl, refl, some}
use forwardr.Conlock.Oneshot.Inner.{ok}
use forwardr.Conlock.Oneshot.System.{channel}
use forwardr.Conlock.Oneshot.Orderings.Access.{
  relaxed, setup_ready, set_wakeless, unset_pending, success_order, waker_cell,
}
use forwardr.Conlock.Oneshot.Orderings.Clock.{Clock, start, ordered_run}
use forwardr.Conlock.Oneshot.Orderings.Races.{ordered_run-ok}
use forwardr.Conlock.Oneshot.Orderings.Needed.{weakened, Races, weakened-Races}
use forwardr.Conlock.Oneshot.Runs.{same_task, whole_life}

ordered_run-ok_example :
    (k : Clock) × (ordered_run success_order waker_cell same_task whole_life (channel 1) start
      ≡ ok (some k))
ordered_run-ok_example =
    ordered_run-ok success_order (λ x. inl refl) same_task waker_cell 1 whole_life

weakened-Races_example :
    (success_order setup_ready ≡ relaxed)
    ⊎ ((setup_ready ≡ set_wakeless) ⊎ (setup_ready ≡ unset_pending))
    ⊎ Races (weakened setup_ready)
weakened-Races_example = weakened-Races setup_ready

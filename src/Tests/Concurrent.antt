-- ===== src/Tests/Concurrent.antt =====
-- Goroutines of scans, and a lookup between two of their steps.
use xns.Common.{◌≡◌, true, false, ok, codes}
use xns.Store.{Snapshot}
use xns.Indexer.{State}
use xns.Indexer.Server.{scan, scan_and_store, store_scan, after_scan, respond, trim_space}
use xns.Indexer.Replaying.{state_of}
use xns.Indexer.Concurrent.{
  nobody, scanning, saved, Machine, first, Steps, ticks, locks, saves, shows, none_more, more,
}
use xns.Indexer.Concurrent.Interleaving.{
  fresh_machine, IsResult, IsLatest, IsMachine, Steps-IsMachine, interleaved_answer,
}
use xns.Indexer.Concurrent.Sequential.{IsBack, scan_and_store-Steps}
use xns.Protocol.Names.{IsName}
use xns.Protocol.Owners.{IsOwner}
use xns.Indexer.Concurrent.Serving.{handle_lookup-IsOwner}
use xns.Tests.Data.{name}
use xns.Tests.Indexer.{chain, inputs, scan_run, found_run}
use xns.Tests.Start.{strange, begun, begun_run, shown, answer_run}

-- The second scan is saved and not yet shown.
abbrev between : Machine
between = record { server = shown; waiting = 0; holder = saved (state_of 100 inputs) }

to_between : Steps (codes "P") (fresh_machine begun) between
to_between =
    let visible = state_of 100 inputs in
    let durable = state_of 90 inputs in
    more _ _ _ (locks begun 0) (
      more _ _ _ (saves begun 0 scanning chain visible durable (codes "dd") first scan_run) (
        more _ _ _ (shows _ 0 visible) (
          more _ _ _ (ticks shown 0 nobody) (
            more _ _ _ (locks shown 0) (
              more _ _ _ (saves shown 0 scanning chain visible durable (codes "dd") first scan_run)
                (none_more between))))))

-- Between the saving and the showing of the second scan.
Steps-IsMachine_example : IsMachine (codes "P") between
Steps-IsMachine_example =
    Steps-IsMachine (codes "P") strange (ok tt) chain.durable_hash begun between begun_run
      to_between

interleaved_answer_example :
    (visible : State) × (respond (state_of 100 inputs) name
      ≡ respond visible (trim_space (codes " a-1 ")))
    × ((old : Snapshot) × IsResult (codes "P") visible old)
    × IsLatest (codes "P") visible between
interleaved_answer_example =
    interleaved_answer (codes "P") strange (ok tt) chain.durable_hash begun between
      (codes "/lookup") (codes " a-1 ") (respond (state_of 100 inputs) name) begun_run to_between
      answer_run

returned_run : IsBack (scan_and_store true (codes "P") begun chain (ok tt) chain (ok tt)).1
unfolding scan_and_store scan after_scan store_scan
returned_run = rw scan_run tt

abbrev at_begun : Machine
at_begun = record { server = begun; waiting = 1; holder = nobody }

abbrev behind_scan : Machine
behind_scan = record {
  server = (scan_and_store true (codes "P") begun chain (ok tt) chain (ok tt)).0;
  waiting = 0;
  holder = nobody;
}

scan_and_store-Steps_example :
    Steps (codes "P") at_begun behind_scan
    × Steps
        (codes "P")
        (record { server = begun; waiting = 1; holder = scanning })
        (record {
          server = (scan_and_store false (codes "P") begun chain (ok tt) chain (ok tt)).0;
          waiting = 0;
          holder = scanning;
        })
scan_and_store-Steps_example =
    scan_and_store-Steps (codes "P") 0 begun chain chain (ok tt) (ok tt) scanning (λ e. cc)
      returned_run

handle_lookup-IsOwner_example :
    IsName (trim_space (codes " a-1 ")) × IsOwner ((respond (state_of 100 inputs) name).owner_key)
handle_lookup-IsOwner_example =
    handle_lookup-IsOwner (codes "P") strange (ok tt) chain.durable_hash begun between
      (codes "/lookup") (codes " a-1 ") (respond (state_of 100 inputs) name) begun_run to_between
      answer_run found_run

-- ===== src/Tests/Start.antt =====
-- An indexer that starts, scans and answers.
use xns.Common.{◌≡◌, refl, true, false, [], codes, same, index, ok}
use xns.Protocol.{valid_name, is_name_char}
use xns.Store.{Snapshot}
use xns.Indexer.Server.{
  Server, handle_lookup, reply_for, respond, answer, trim_space, snapshot_matches_chain,
}
use xns.Indexer.Replaying.{state_of}
use xns.Indexer.Storing.{snapshot_of}
use xns.Indexer.Start.{empty_snapshot, is_stale, stored_state, taken_over, first_server}
use xns.Tests.Data.{name}
use xns.Tests.Indexer.{chain, inputs}

-- A state of another network is stored.
abbrev pub strange : Snapshot
strange = record empty_snapshot { height = 7; protocol_address = codes "Q" }

abbrev pub begun : Server
begun = record {
  state = record { height = 0; events = []; names = [] };
  ready = false;
  stored = empty_snapshot;
}

pub begun_run : first_server (codes "P") strange (ok tt) chain.durable_hash ≡ ok begun
unfolding first_server stored_state is_stale taken_over snapshot_matches_chain same codes
begun_run = refl

abbrev pub shown : Server
shown = record {
  state = state_of 100 inputs;
  ready = true;
  stored = snapshot_of (codes "P") (state_of 90 inputs) (codes "dd");
}

pub answer_run :
    handle_lookup shown (codes "/lookup") (codes " a-1 ")
    ≡ ok (answer (respond (state_of 100 inputs) name))
unfolding handle_lookup reply_for trim_space same codes valid_name is_name_char index
answer_run = refl

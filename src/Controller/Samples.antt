-- ===== src/Controller/Samples.antt =====
-- Concrete values for the runs of internal/controller: a cache, replies and decoders.
use v2sudoku.Prelude.{pos, [], ◌∷◌, true, none, some, string_eq, int_eq}
use v2sudoku.Panel.{NodeInfo}
use v2sudoku.Panel.Node.{normalize}
use v2sudoku.Panel.Client.{Reply, replied}
use v2sudoku.Runtime.Samples.{ann, bob, node_one}
use v2sudoku.Runtime.KeyStore.State.{FileState}
use v2sudoku.Controller.Snapshot.{PanelSnapshot, SnapshotJson, CacheDisk}
use v2sudoku.Controller.Monitor.{Codecs}

abbrev pub servable_one : NodeInfo
servable_one = node_one

abbrev pub saved_one : PanelSnapshot
saved_one = record {
  api_host = "h";
  node_id = pos 7;
  node = some (normalize (pos 7) "h" servable_one).1;
  users = ann ∷ [];
  alive = [];
  saved_at = pos 3;
}

-- A coder of one snapshot.
abbrev pub snapshots_one : SnapshotJson
snapshots_one = record { marshal = λ s. some "{}"; unmarshal = λ body. some saved_one }

abbrev pub cache_one : CacheDisk
cache_one = record {
  cache_file = FileState.missing;
  tmp_file = FileState.missing;
  mkdir_succeeds = true;
  write_succeeds = true;
  rename_succeeds = true;
  torn = FileState.missing;
}

abbrev pub ok_reply : Reply
ok_reply = replied (record { status = pos 200; body = "b"; etag = "t" })

abbrev pub same_reply : Reply
same_reply = replied (record { status = pos 304; body = ""; etag = "" })

abbrev pub codecs_one : Codecs
codecs_one = record {
  hash = λ text. text;
  decode_node = λ body. none;
  msgpack = λ body. none;
  json = λ body. some (some (bob ∷ []));
  decode_alive = λ body. some (some []);
  snapshots = snapshots_one;
}

-- ===== src/Examples/Durable.antt =====
-- A durable store with one frame (crates/lockframe-server/src/storage/redb.rs), over a database that is a
-- function from ranges to their entries.
use lockframe.Common.{
  ℕ, ◌≡◌, ◌≤◌, ◌<◌, refl, List, [], map, ◌&&◌, if◌then◌else◌, none, some, ok, All, arith, length,
  lookup, insert, take, drop, drop_of_length-le,
}
use lockframe.Proto.Frame.{Frame}
use lockframe.Proto.Frame.Wire.{IsWellFormed}
use lockframe.Server.Memory
use lockframe.Server.Memory.{MemoryStorage}
use lockframe.Server.Memory.Logs.{log}
use lockframe.Server.Redb.Store.{Table, Entry, Database, store_frame, load_frames}
use lockframe.Server.Redb.Store.Logs.{IsOrderedTable, entries, ordered_insert, within, same}
use lockframe.Server.Redb.Store.Agreement.{Agrees, load_frames-Agrees, store_frame-Agrees}
use lockframe.Examples.Coder.{silent}
use lockframe.Examples.Rooms.{contents}
use lockframe.Examples.Wire.{frame, frame-IsWellFormed}

abbrev Contents : Type 0
Contents = Table → List ℕ → List ℕ → List Entry

abbrev put : Contents → Table → List ℕ → List ℕ → Contents
put d t k v t' lo hi =
    if same t t' && within lo hi k then ordered_insert k v (d t' lo hi) else d t' lo hi

abbrev database : Database Contents
database = record {
  range = λ d t lo hi. some (map some (d t lo hi));
  iter = λ d t. none;
  get = λ d t k. some none;
  put = λ d t k v. some (put d t k v);
}

abbrev view : Contents → Table → List ℕ → List ℕ → List Entry
view d t lo hi = d t lo hi

works : IsOrderedTable database view
works = record {
  reads = λ d t lo hi. refl;
  puts = λ d t k v. (put d t k v, refl, λ t' lo hi. refl);
}

abbrev empty : Contents
empty t lo hi = []

no_entries : (room from : ℕ) → [] ≡ entries room from (drop from [])
no_entries room from = rw (drop_of_length-le {A = Frame} from [] (omega arith)) refl

empty-Agrees : Agrees database view works silent silent empty contents
unfolding lookup
empty-Agrees = record { frames_of = λ room from p q. no_entries room from }

empty_short : length (log contents 7) < 18446744073709551615
unfolding lookup
empty_short = omega arith

both_write :
    (d' : Contents) × (store_frame database silent silent empty 7 0 frame
      ≡ some (d', (Memory.store_frame contents 7 0 frame).1))
    × Agrees database view works silent silent d' (Memory.store_frame contents 7 0 frame).0
both_write =
    store_frame-Agrees database view works silent silent empty contents 7 0 frame empty-Agrees
      (omega arith) empty_short frame-IsWellFormed

store_frame-Agrees_example :
    (d' : Contents) × (store_frame database silent silent empty 7 0 frame
      ≡ some (d', (Memory.store_frame contents 7 0 frame).1))
    × Agrees database view works silent silent d' (Memory.store_frame contents 7 0 frame).0
store_frame-Agrees_example =
    store_frame-Agrees database view works silent silent empty contents 7 0 frame empty-Agrees
      (omega arith) empty_short frame-IsWellFormed

-- The stores after the write, and what a read of each finds.
abbrev written : Contents
written = both_write.0

written_well : All IsWellFormed (log (Memory.store_frame contents 7 0 frame).0 7)
unfolding lookup insert Memory.store_frame Memory.latest_log_index
written_well = (frame-IsWellFormed, tt)

written_short : length (log (Memory.store_frame contents 7 0 frame).0 7) ≤ 18446744073709551616
unfolding lookup insert Memory.store_frame Memory.latest_log_index
written_short = omega arith

load_frames-Agrees_example :
    load_frames database silent silent 100 written 7 0 10
    ≡ some (ok (take 10 (drop 0 (log (Memory.store_frame contents 7 0 frame).0 7))))
load_frames-Agrees_example =
    load_frames-Agrees database view works silent silent written
      (Memory.store_frame contents 7 0 frame).0 100 7 0 10 both_write.2 (omega arith) (omega arith)
      (omega arith) written_short written_well

-- ===== src/Restore/Server.antt =====
-- The database server and the cluster as the calls of a restore leave them: the specification that
-- the theorems about internal/restore/restore.go are stated over.
--
-- It is read off a trace. A call that failed changed nothing: Postgres carries a CREATE, RENAME or
-- DROP DATABASE out whole or not at all, and the replica count is the one that was last accepted.
-- Statements of a sink go to the database that it was opened on, whatever that holds.
use matrixctrl.Common.{
  ℕ, String, Bool, true, false, Option, none, some, List, [], ◌∷◌, str_eq, if◌then◌else◌,
}
use matrixctrl.Restore.Ports.{
  Call, scale, create, rename, drop, open_sink, truncate_all, merge_kept, load_csv, set_sequences,
  close, Trace,
}

-- What a database holds: what it held before the restore, with nothing written; or what was loaded
-- since it was created, the newest table first; or old data that was written over.
pub data Content : Type 0 where
  original : Content
  fresh : List String → Content
  written_over : Content

pub record Server : Type 0 where
  pub holds : String → Option Content
  pub scaled : ℕ
  pub sink : Option String

abbrev pub update : String → Option Content → (String → Option Content) → String → Option Content
update n c holds m = if str_eq n m then c else holds m

abbrev pub emptied : Option Content → Option Content
emptied none = none
emptied (some (fresh ts)) = some (fresh [])
emptied (some _) = some written_over

abbrev pub loaded : String → Option Content → Option Content
loaded t none = none
loaded t (some (fresh ts)) = some (fresh (t ∷ ts))
loaded t (some _) = some written_over

abbrev pub touched : Option Content → Option Content
touched none = none
touched (some (fresh ts)) = some (fresh ts)
touched (some _) = some written_over

abbrev pub through :
    Option String
    → (Option Content → Option Content)
    → (String → Option Content)
    → String
    → Option Content
through none f holds = holds
through (some n) f holds = update n (f (holds n)) holds

abbrev pub effect : Call → Server → Server
effect (scale w n) v = record v { scaled = n }
effect (create n owner) v = record v { holds = update n (some (fresh [])) v.holds }
effect (rename a b) v = record v { holds = update b (v.holds a) (update a none v.holds) }
effect (drop n) v = record v { holds = update n none v.holds }
effect (open_sink n) v = record v { sink = some n }
effect truncate_all v = record v { holds = through v.sink emptied v.holds }
effect (load_csv t) v = record v { holds = through v.sink (loaded t) v.holds }
effect (set_sequences _) v = record v { holds = through v.sink touched v.holds }
effect merge_kept v = record v { holds = through v.sink touched v.holds }
effect close v = record v { sink = none }
effect _ v = v

abbrev pub outcome : Bool → Call → Server → Server
outcome true c v = effect c v
outcome false c v = v

-- The server after the calls of a trace.
abbrev pub after : Server → Trace → Server
after v [] = v
after v (e ∷ t) = outcome e.done e.call (after v t)

abbrev pub is_some : Option Content → Bool
is_some none = false
is_some (some _) = true

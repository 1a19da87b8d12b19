-- ===== src/Session/Plugins/Update/Tracking.antt =====
-- `UpdateSchemaPlugIn`: which tables the tracker tells of after a response.
use pg_fort.Base.{
  ◌≡◌, refl, ap, ◌∙◌, Bool, true, false, ◌&&◌, ◌||◌, Bool-cases, inl, inr, some, Text, codes,
  text_eq, arith, ◌==◌, ◌⊎◌, [], ◌∷◌, ok,
}
use pg_fort.Common.{no_error}
use pg_fort.Schema.Tracker.{SchemaTracker, add_rel_name, exist}
use pg_fort.Schema.Tracker.Names.{trackable, exist-add_rel_name}
use pg_fort.Query.Json.{has_key, get_string, get_bool, at_key, Json, string, boolean, find_node}
use pg_fort.Session.Plugins.Nodes.{At}
use pg_fort.Session.{Session, World, done}
use pg_fort.Session.Plugins.Rewrite.{first_byte}
use pg_fort.Session.Plugins.Update.{
  if_not_exists_of, update_schema, on_created, created_name, on_name,
}

-- The node of a statement that creates the table `name`: IF NOT EXISTS is missing, or a Boolean.
abbrev pub Creates : Text → Json → Type 0
Creates name n =
    At (codes "relation" ∷ codes "relname" ∷ []) (string name) n
    × ((has_key (codes "if_not_exists") n ≡ false)
        ⊎ ((b : Bool) × (at_key (codes "if_not_exists") n ≡ ok (boolean b))))

created_name-name : (name : Text) (n : Json) → Creates name n → created_name n ≡ ok name
unfolding created_name if_not_exists_of get_string get_bool
created_name-name name n ((r, related, (t, named, is_name)), inl absent) =
    rw (related, named, is_name, absent) refl
created_name-name name n ((r, related, (t, named, is_name)), inr (b, present)) =
    elim (Bool-cases (has_key (codes "if_not_exists") n)) [
      | inl e ↦ rw (related, named, is_name, e, present) refl
      | inr e ↦ rw (related, named, is_name, e) refl
    ]

abbrev pub completed : Session → Bool
completed s = s.context.query.valid && (first_byte s.context.response == b'C')

update_schema-add :
    (w : World) (s : Session) (st : SchemaTracker) (name : Text) (n : Json) (put : Json → Json)
    → s.st ≡ some st
    → find_node (codes "CreateStmt") s.context.query.json ≡ some (n, put)
    → Creates name n
    → completed s ≡ true
    → update_schema w s ≡ done (record s { st = some (add_rel_name name st) }) no_error
unfolding update_schema on_created on_name
update_schema-add w s st name n put h found creates c =
    rw (found, created_name-name name n creates, h) (ground arith)

update_schema-skip :
    (w : World) (s : Session) → completed s ≡ false → update_schema w s ≡ done s no_error
unfolding update_schema
update_schema-skip w s c = ground arith

-- After the response to a CREATE TABLE statement of the table `name`, the tracker tells of `name` if
-- the name is trackable and the statement was completed, and of every other relation what it told
-- before. The plugin reports no error and changes nothing else of the session.
pub update_schema_lem :
    (w : World) (s : Session) (st : SchemaTracker) (name : Text) (n : Json) (put : Json → Json)
    → s.st ≡ some st
    → find_node (codes "CreateStmt") s.context.query.json ≡ some (n, put)
    → Creates name n
    → (st' : SchemaTracker) × (update_schema w s ≡ done (record s { st = some st' }) no_error)
      × ((u : Text) → exist u st' ≡ ((completed s && text_eq name u && trackable u) || exist u st))
update_schema_lem w s st name n put h found creates = elim (Bool-cases (completed s)) [
  | inl t ↦ (
    add_rel_name name st,
    update_schema-add w s st name n put h found creates t,
    λ u. rw (exist-add_rel_name name u st, t) refl,
  )
  | inr f ↦ (
    st,
    update_schema-skip w s f ∙ ap (λ o. done (record s { st = o }) no_error) h,
    λ u. rw f refl,
  )
]

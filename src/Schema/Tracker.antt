-- ===== src/Schema/Tracker.antt =====
-- lib/schema/schema-tracker.cpp. The set is a list; the mutex makes each operation one step. What
-- the catalogue query returns is an argument of `refresh`.
pub mod Names
use pg_fort.Base.{
  Bool, true, false, not, ◌&&◌, ◌||◌, List, [], ◌∷◌, Option, none, some, Text, codes, text_eq,
  ends_with, if◌then◌else◌,
}

-- `unordered_set::contains`
unfoldable pub mem : Text → List Text → Bool
mem t [] = false
mem t (u ∷ us) = if text_eq u t then true else mem t us

-- `unordered_set::emplace`
unfoldable pub emplace : Text → List Text → List Text
emplace t us = if mem t us then us else t ∷ us

abbrev pub excluded : List Text
excluded =
    codes "__access_binding_refs__"
    ∷ codes "__access_inheritances__"
    ∷ codes "__access_permissions__"
    ∷ codes "__access_roles__"
    ∷ codes "__access_roles_denorm__"
    ∷ codes "__access_roles_expanded__"
    ∷ codes "gorp_migrations"
    ∷ []

unfoldable pub is_excluded : Text → Bool
unfolding mem
is_excluded t = mem t excluded

pub record SchemaTracker : Type 0 where
  pub relnames : List Text

-- `relname.ends_with("__acl__") || relname.ends_with("__access_bindings__")`
unfoldable pub is_internal : Text → Bool
is_internal t = ends_with t (codes "__acl__") || ends_with t (codes "__access_bindings__")

-- `SchemaTracker::AddRelName`
unfoldable pub add_rel_name : Text → SchemaTracker → SchemaTracker
add_rel_name t st = if not (is_internal t) then record { relnames = emplace t st.relnames } else st

-- The loop of `SchemaTracker::Refresh` over the rows of the catalogue.
unfoldable pub refresh_rows : List Text → SchemaTracker → SchemaTracker
refresh_rows [] st = st
refresh_rows (t ∷ rows) st =
    refresh_rows rows
      (if not (is_internal t) then record { relnames = emplace t st.relnames } else st)

-- `SchemaTracker::Refresh`: without a connection pool there is nothing to ask.
unfoldable pub refresh : Option (List Text) → SchemaTracker → SchemaTracker
unfolding refresh_rows
refresh none st = st
refresh (some rows) st = refresh_rows rows st

-- `SchemaTracker::SchemaTracker`
unfoldable pub new_tracker : Option (List Text) → SchemaTracker
unfolding refresh
new_tracker rows = refresh rows (record { relnames = [] })

-- `SchemaTracker::Exist`
unfoldable pub exist : Text → SchemaTracker → Bool
exist t st = if is_excluded t || is_internal t then false else mem t st.relnames

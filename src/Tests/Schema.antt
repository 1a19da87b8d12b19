-- ===== src/Tests/Schema.antt =====
-- Runs of the schema tracker at concrete inputs.
use pg_fort.Base.{◌≡◌, refl, List, [], ◌∷◌, ◌++◌, some, Text, codes, true, false, ◌&&◌, text_eq}
use pg_fort.Schema.Tracker.{mem, exist, new_tracker, add_rel_name}
use pg_fort.Schema.Tracker.Names.{
  trackable, bindings_suffix, acls_suffix, exist-new_tracker, exist-suffixes,
}

abbrev catalogue : List Text
catalogue = codes "films" ∷ codes "films__acls__" ∷ codes "gorp_migrations" ∷ codes "films" ∷ []

exist-new_tracker_example :
    exist (codes "gorp_migrations") (new_tracker (some catalogue))
    ≡ (mem (codes "gorp_migrations") catalogue && trackable (codes "gorp_migrations"))
exist-new_tracker_example = exist-new_tracker (codes "gorp_migrations") catalogue

exist-suffixes_example :
    (exist
        (codes "films" ++ bindings_suffix)
        (add_rel_name (codes "films") (new_tracker (some catalogue)))
      ≡ false)
    × (exist (codes "films" ++ acls_suffix) (new_tracker (some catalogue)) ≡ true)
unfolding mem text_eq
exist-suffixes_example =
    exist-suffixes (codes "films") (add_rel_name (codes "films") (new_tracker (some catalogue)))
      catalogue refl

-- ===== src/Schema/Tracker/Names.antt =====
-- Which relations the tracker tells of.
use mathlib.Core.List.{reverse, reverse-append}
use pg_fort.Base.{
  ends_with-append, ◌≡◌, refl, inl, inr, Bool, true, false, not, ◌&&◌, ◌||◌, List, [], ◌∷◌, ◌++◌,
  some, Text, codes, text_eq, text_eq_iff, ends_with, starts_with, arith, Bool-cases,
}
use pg_fort.Schema.Tracker.{
  mem, emplace, excluded, is_excluded, SchemaTracker, is_internal, add_rel_name, refresh_rows,
  new_tracker, exist,
}

mem-emplace : (t u : Text) (us : List Text) → mem u (emplace t us) ≡ (text_eq t u || mem u us)
unfolding mem emplace
mem-emplace t u us = elim (Bool-cases (mem t us)) [
  | inr new ↦ rw new (ground arith)
  | inl old ↦ rw old (mem-old us old)
]
  where
    mem-old : (vs : List Text) → mem t vs ≡ true → mem u vs ≡ (text_eq t u || mem u vs)
    mem-old [] h = cc
    mem-old (v ∷ vs) h =
        ground (arith, text_eq_iff v t, text_eq_iff v u, text_eq_iff t u, mem-old vs)

-- Whether a relation is under access control: neither a table of the extension nor a derived one.
abbrev pub trackable : Text → Bool
trackable t = not (is_excluded t || is_internal t)

-- After a relation is added the tracker tells of it exactly if it is trackable, and of every other
-- relation what it told before.
pub exist-add_rel_name :
    (t u : Text) (st : SchemaTracker)
    → exist u (add_rel_name t st) ≡ ((text_eq t u && trackable u) || exist u st)
unfolding exist add_rel_name
exist-add_rel_name t u st = ground (arith, text_eq_iff t u, mem-emplace t u st.relnames)

refresh_rows-cons :
    (t : Text) (rows : List Text) (st : SchemaTracker)
    → refresh_rows (t ∷ rows) st ≡ refresh_rows rows (add_rel_name t st)
unfolding refresh_rows add_rel_name
refresh_rows-cons t rows st = refl

exist-refresh_rows :
    (u : Text) (rows : List Text) (st : SchemaTracker)
    → exist u (refresh_rows rows st) ≡ ((mem u rows && trackable u) || exist u st)
unfolding mem
exist-refresh_rows u [] st = unfold refresh_rows in refl
exist-refresh_rows u (t ∷ rows) st =
    rw (refresh_rows-cons t rows st, exist-refresh_rows u rows (add_rel_name t st))
      (ground (arith, text_eq_iff t u, exist-add_rel_name t u st))

not-exist_empty : (u : Text) → exist u (record { relnames = [] }) ≡ false
unfolding exist mem
not-exist_empty u = ground arith

-- A tracker that was made from the catalogue tells of exactly those of its relations that are
-- trackable, whatever the order and the repetitions of the rows.
pub exist-new_tracker :
    (u : Text) (rows : List Text) → exist u (new_tracker (some rows)) ≡ (mem u rows && trackable u)
unfolding new_tracker
exist-new_tracker u rows =
    ground (arith, exist-refresh_rows u rows (record { relnames = [] }), not-exist_empty u)

-- A text with one suffix has another only if the ends agree.
ends_with-append_starts :
    (t p q : Text) → ends_with (t ++ p) q ≡ starts_with (reverse p ++ reverse t) (reverse q)
unfolding ends_with
ends_with-append_starts t p q = rw (reverse-append t p)

abbrev pub bindings_suffix : Text
bindings_suffix = codes "__access_bindings__"

abbrev pub acls_suffix : Text
acls_suffix = codes "__acls__"

exist-bindings : (t : Text) (st : SchemaTracker) → exist (t ++ bindings_suffix) st ≡ false
unfolding exist is_internal
exist-bindings t st = ground (arith, ends_with-append t bindings_suffix)

acls-not-internal : (t : Text) → is_internal (t ++ acls_suffix) ≡ false
unfolding is_internal starts_with
acls-not-internal t = rw (
  ends_with-append_starts t acls_suffix (codes "__acl__"),
  ends_with-append_starts t acls_suffix bindings_suffix,
)

abbrev all : (Text → Bool) → List Text → Bool
all p [] = true
all p (u ∷ us) = p u && all p us

all-mem :
    (p : Text → Bool) (u : Text) (us : List Text) → all p us ≡ true → mem u us ≡ true → p u ≡ true
unfolding mem
all-mem p u [] h m = cc
all-mem p u (v ∷ us) h m = ground (arith, text_eq_iff v u, all-mem p u us)

no_acls : all (λ u. not (ends_with u acls_suffix)) excluded ≡ true
unfolding ends_with
no_acls = refl

acls-not-excluded : (t : Text) → is_excluded (t ++ acls_suffix) ≡ false
unfolding is_excluded
acls-not-excluded t = elim (Bool-cases (mem (t ++ acls_suffix) excluded)) [
  | inr no_name ↦ no_name
  | inl name ↦
      let h =
        all-mem (λ u. not (ends_with u acls_suffix)) (t ++ acls_suffix) excluded no_acls name in
      ground (arith, ends_with-append t acls_suffix, h)
]

exist-acls :
    (t : Text) (rows : List Text)
    → mem (t ++ acls_suffix) rows ≡ true
    → exist (t ++ acls_suffix) (new_tracker (some rows)) ≡ true
exist-acls t rows h =
    rw (exist-new_tracker (t ++ acls_suffix) rows, h, acls-not-excluded t, acls-not-internal t)

-- The binding table of a relation is never told of, whatever was added. The view of its access lists,
-- which bears the suffix `__acls__`, passes the test for `__acl__`: once the catalogue has listed it,
-- the tracker tells of it as of a relation under access control.
pub exist-suffixes :
    (t : Text) (st : SchemaTracker) (rows : List Text)
    → mem (t ++ acls_suffix) rows ≡ true
    → (exist (t ++ bindings_suffix) st ≡ false)
      × (exist (t ++ acls_suffix) (new_tracker (some rows)) ≡ true)
exist-suffixes t st rows h = (exist-bindings t st, exist-acls t rows h)

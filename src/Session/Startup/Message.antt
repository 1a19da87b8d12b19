-- ===== src/Session/Startup/Message.antt =====
-- Reading a StartupMessage terminates, and gives back the parameters that were written.
use mathlib.Core.List.{append_assoc}
use pg_fort.Base.{
  false, Bool-cases, ◌∙◌, ℕ, zero, suc, ◌≤◌, ◌<◌, ◌≡◌, refl, ap, ◌≢◌, List, [], ◌∷◌, ◌++◌, Option,
  some, Text, c_str, HasNoNul, length, arith, ◌==◌, inl, inr, Bool-cases, length-append,
  length-drop, c_str-append, drop_past,
}
use pg_fort.Base.Dict.{Dict}
use pg_fort.Session.Startup.{add_parameter, past, read_parameters}

-- A round takes its name and its value, so a fuel above the bytes that are left is enough.
pub read_parameters-total :
    (f : ℕ) (t : Text) (d : Dict Text)
    → length t < f
    → (e : Dict Text) × (read_parameters f t d ≡ some e)
unfolding read_parameters
read_parameters-total zero t d h = absurd (omega arith)
read_parameters-total (suc f) [] d h = (d, refl)
read_parameters-total (suc f) (a ∷ t) d h = elim (Bool-cases (a == 0)) [
  | inl e ↦ rw e (d, refl)
  | inr e ↦ rw e (
      read_parameters-total f (past (past (a ∷ t))) _ (
        omega (
          arith,
          length-drop (suc (length (c_str (a ∷ t)))) (a ∷ t),
          length-drop (suc (length (c_str (past (a ∷ t))))) (past (a ∷ t)),
        )))
]

abbrev pub pair_bytes : List (Text × Text) → Text
pair_bytes [] = []
pair_bytes ((n, v) ∷ ps) = n ++ 0 ∷ (v ++ 0 ∷ pair_bytes ps)

abbrev pub ArePairs : List (Text × Text) → Type 0
ArePairs [] = Unit {0}
ArePairs ((n, v) ∷ ps) = (n ≢ []) × HasNoNul n × HasNoNul v × ArePairs ps

abbrev pub add_parameters : List (Text × Text) → Dict Text → Dict Text
add_parameters [] d = d
add_parameters ((n, v) ∷ ps) d = add_parameters ps (add_parameter n v d)

read_round :
    (f a : ℕ) (n v after : Text) (d : Dict Text) {r : Option (Dict Text)}
    → HasNoNul (a ∷ n)
    → HasNoNul v
    → read_parameters f after (add_parameter (a ∷ n) v d) ≡ r
    → read_parameters (suc f) ((a ∷ n) ++ 0 ∷ (v ++ 0 ∷ after)) d ≡ r
unfolding read_parameters
read_round f a n v after d hn hv h =
    let ne : (a == 0) ≡ false = ground arith in
    rw
      (
        ne,
        c_str-append (a ∷ n) (v ++ 0 ∷ after) hn,
        drop_past (a ∷ n) (v ++ 0 ∷ after),
        c_str-append v after hv,
        drop_past v after,
      )
      h

read_parameters-pairs :
    (f : ℕ) (ps : List (Text × Text)) (rest : Text) (d : Dict Text)
    → ArePairs ps
    → length ps < f
    → read_parameters f (pair_bytes ps ++ 0 ∷ rest) d ≡ some (add_parameters ps d)
unfolding read_parameters
read_parameters-pairs zero ps rest d h lt = absurd (omega arith)
read_parameters-pairs (suc f) [] rest d h lt = refl
read_parameters-pairs (suc f) (([], v) ∷ ps) rest d h lt = absurd (h.0 refl)
read_parameters-pairs (suc f) ((a ∷ n, v) ∷ ps) rest d h lt =
    let after : Text = pair_bytes ps ++ 0 ∷ rest in
    let t : Text = (a ∷ n) ++ 0 ∷ (v ++ 0 ∷ after) in
    let shape : pair_bytes ((a ∷ n, v) ∷ ps) ++ 0 ∷ rest ≡ t =
      append_assoc (a ∷ n) (0 ∷ (v ++ 0 ∷ pair_bytes ps)) (0 ∷ rest)
      ∙ ap (λ l. (a ∷ n) ++ 0 ∷ l) (append_assoc v (0 ∷ pair_bytes ps) (0 ∷ rest)) in
    rw shape
      (read_round f a n v after d h.1 h.2 (read_parameters-pairs f ps rest _ h.3 (omega arith)))

length-pairs-le : (ps : List (Text × Text)) → length ps ≤ length (pair_bytes ps)
length-pairs-le [] = omega arith
length-pairs-le ((n, v) ∷ ps) = omega (
  arith,
  length-pairs-le ps,
  length-append n (0 ∷ (v ++ 0 ∷ pair_bytes ps)),
  length-append v (0 ∷ pair_bytes ps),
)

-- With the fuel that `Initiate` has in the model, one round for each byte, the parameters of a
-- StartupMessage are all read, in order, up to the empty name.
pub read_parameters_lem :
    (ps : List (Text × Text)) (rest : Text)
    → ArePairs ps
    → read_parameters (suc (length (pair_bytes ps ++ 0 ∷ rest))) (pair_bytes ps ++ 0 ∷ rest) []
      ≡ some (add_parameters ps [])
read_parameters_lem ps rest h =
    read_parameters-pairs _ ps rest [] h
      (omega (arith, length-pairs-le ps, length-append (pair_bytes ps) (0 ∷ rest)))

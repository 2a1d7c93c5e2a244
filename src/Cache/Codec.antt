-- ===== src/Cache/Codec.antt =====
-- JSON, for the runs: a payload whose values are numbers, written with lengths in front.
use factory_agent.Prelude.{
  ℕ, zero, suc, ◌≡◌, refl, ap, Option, none, some, List, [], ◌∷◌, ◌++◌, Text, length,
}
use factory_agent.Cache.Roster.{Entry, object, no_object, Payload, entries, no_list}

abbrev pub write_pairs : List (Text × ℕ) → Text → Text
write_pairs [] rest = rest
write_pairs ((k, v) ∷ d) rest = v ∷ length k ∷ (k ++ write_pairs d rest)

abbrev pub write_entries : List (Entry ℕ) → Text
write_entries [] = []
write_entries (no_object ∷ es) = 0 ∷ write_entries es
write_entries (object d ∷ es) = suc (length d) ∷ write_pairs d (write_entries es)

abbrev pub json : Payload ℕ → Text
json no_list = []
json (entries es) = length es ∷ write_entries es

abbrev pub then_cons : {A : Type 0} → A → Option (List A × Text) → Option (List A × Text)
then_cons a none = none
then_cons a (some (l, r)) = some (a ∷ l, r)

abbrev pub read_text : ℕ → Text → Option (Text × Text)
read_text zero r = some ([], r)
read_text (suc n) [] = none
read_text (suc n) (c ∷ r) = then_cons c (read_text n r)

unfoldable pub read_pairs : ℕ → Text → Option (List (Text × ℕ) × Text)
read_pairs zero r = some ([], r)
read_pairs (suc n) (v ∷ l ∷ r) = elim (read_text l r) [
  | none ↦ none
  | some (k, r') ↦ then_cons (k, v) (read_pairs n r')
]
read_pairs (suc n) _ = none

unfoldable pub read_entries : ℕ → Text → Option (List (Entry ℕ) × Text)
unfolding read_pairs
read_entries zero r = some ([], r)
read_entries (suc n) [] = none
read_entries (suc n) (zero ∷ r) = then_cons no_object (read_entries n r)
read_entries (suc n) (suc m ∷ r) = elim (read_pairs m r) [
  | none ↦ none
  | some (d, r') ↦ then_cons (object d) (read_entries n r')
]

abbrev payload : Option (List (Entry ℕ) × Text) → Option (Payload ℕ)
payload none = none
payload (some (es, r)) = some (entries es)

unfoldable pub loads : Text → Option (Payload ℕ)
unfolding read_entries
loads [] = some no_list
loads (n ∷ r) = payload (read_entries n r)

read_text-append : (k r : Text) → read_text (length k) (k ++ r) ≡ some (k, r)
read_text-append [] r = refl
read_text-append (c ∷ k) r = ap (then_cons c) (read_text-append k r)

read_pairs-write_pairs :
    (d : List (Text × ℕ)) (r : Text) → read_pairs (length d) (write_pairs d r) ≡ some (d, r)
unfolding read_pairs
read_pairs-write_pairs [] r = refl
read_pairs-write_pairs ((k, v) ∷ d) r =
    rw (read_text-append k (write_pairs d r), read_pairs)
      (ap (then_cons (k, v)) (read_pairs-write_pairs d r))

read_entries-write_entries :
    (es : List (Entry ℕ)) → read_entries (length es) (write_entries es) ≡ some (es, [])
unfolding read_entries
read_entries-write_entries [] = refl
read_entries-write_entries (no_object ∷ es) =
    ap (then_cons no_object) (read_entries-write_entries es)
read_entries-write_entries (object d ∷ es) =
    rw (read_pairs-write_pairs d (write_entries es), read_entries)
      (ap (then_cons (object d)) (read_entries-write_entries es))

pub loads-json : (p : Payload ℕ) → loads (json p) ≡ some p
unfolding loads
loads-json no_list = refl
loads-json (entries es) = ap payload (read_entries-write_entries es)

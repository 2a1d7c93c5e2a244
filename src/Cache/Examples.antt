-- ===== src/Cache/Examples.antt =====
-- Runs of the cache on a store that keeps a dictionary, with a digest that shifts every character
-- past `:`, and on JSON written with lengths in front.
use factory_agent.Prelude.{
  starts_with, ℕ, ◌+◌, ◌≡◌, refl, ap, ◌⊎◌, inl, inr, true, Option, none, some, List, [], ◌∷◌, Text,
  text, get, put, get-put, nat_eq, list_eq, ◌==◌, list_beq_iff, if◌then◌else◌, Bool-cases, arith,
  Result, ok, err,
}
use factory_agent.Cache.{
  CacheStore, AuthAwareCache, World, build_key, key_of, versions, read, write, looked_up, settled,
  require_domain, record_hit, scope_prefix, invalidate_scope,
}
use factory_agent.Cache.Keys.{IsPlain}
use factory_agent.Cache.Isolation.{
  Holds, IsStore, Call, writes, invalidates_scope, after, perform, run, WrittenFor, read-WrittenFor,
}
use factory_agent.Cache.Codec.{json, loads, loads-json}
use factory_agent.Cache.Roster.{
  DirectoryRecord, dept_record, employee_record, Ask, encode_records, decode_records,
}
use factory_agent.Cache.Roster.Sound.{
  decode_records-encode_records, ask, ask_all, IsSourced, ask-IsSourced,
}

abbrev Dict : Type 0
Dict = List (Text × Text)

unfoldable drop_prefix : Text → Dict → Dict
drop_prefix p [] = []
drop_prefix p ((k, v) ∷ d) = if starts_with p k then drop_prefix p d else (k, v) ∷ drop_prefix p d

abbrev dict_store : CacheStore Dict
dict_store = record {
  fetch = λ s k. (s, some (get k s));
  store = λ s k v ttl. (put k v s, true);
  delete_prefix = λ s p. (drop_prefix p s, true);
}

get-drop_prefix :
    (p j : Text) (d : Dict) → get j (drop_prefix p d) ≡ (if starts_with p j then none else get j d)
unfolding get drop_prefix
get-drop_prefix p j [] = ground arith
get-drop_prefix p j ((k, v) ∷ d) = elim (Bool-cases (k == j)) [
  | inl same ↦
      ground (arith, same, ap (starts_with p) ((list_beq_iff k j).0 same), get-drop_prefix p j d)
  | inr other ↦ ground (arith, other, get-drop_prefix p j d)
]

dict_put :
    (s : Dict) (k v j w : Text)
    → get j (put k v s) ≡ some w
    → ((k ≡ j) × (v ≡ w)) ⊎ (get j s ≡ some w)
dict_put s k v j w h = elim (Bool-cases (k == j)) [
  | inl same ↦ inl ((list_beq_iff k j).0 same, ground (arith, same, h, get-put k j v s))
  | inr other ↦ inr (ground (arith, other, h, get-put k j v s))
]

inner : {x y : Option Text} → ◌≡◌ {A = Option (Option Text)} (some x) (some y) → x ≡ y
inner e = cc

dict_store-IsStore : IsStore dict_store
dict_store-IsStore = record {
  fetch_holds = λ s k j v h. h;
  store_holds = λ s k v ttl j w h. elim (dict_put s k v j w (inner h)) [
    | inl now ↦ inl now
    | inr old ↦ inr (ap some old)
  ];
  delete_holds = λ s p j v h. ap some (ground (arith, inner h, get-drop_prefix p j s));
}

abbrev shift : Text → Text
shift [] = []
shift (c ∷ s) = (c + 59) ∷ shift s

shift-IsPlain : (t : Text) → IsPlain (shift t)
shift-IsPlain [] = refl
shift-IsPlain (c ∷ s) = ground (arith, shift-IsPlain s)

abbrev same_text : Text → Text
same_text t = t

abbrev made : AuthAwareCache
made = record {
  contract_version = text "1";
  metric_version = text "1";
  data_version = text "7";
  ttl_policy = [];
}

abbrev empty : World Dict
empty = record { lines = []; stats = record { hits = []; misses = []; reasons = [] } }

empty-Holds : (key v : Text) → ¬ Holds dict_store empty.lines key v
unfolding get
empty-Holds key v h = cc

abbrev calls : List (Call Text)
calls =
    writes (text "output") (text "t1") (text "ab") (text "day") (text "42") none
    ∷ invalidates_scope (text "t1") (text "cd")
    ∷ []

read-WrittenFor_example :
    WrittenFor dict_store shift same_text made calls
      (text "output")
      (text "t1")
      (text "ab")
      (text "day")
      (text "42")
unfolding read build_key key_of versions require_domain looked_up run perform write settled
    invalidate_scope scope_prefix get put drop_prefix starts_with record_hit
read-WrittenFor_example =
    read-WrittenFor dict_store shift same_text made dict_store-IsStore shift-IsPlain empty
      (after dict_store shift same_text made empty (
        read dict_store shift same_text made (run dict_store shift same_text made empty calls)
          (text "output") (text "t1") (text "ab") (text "day")))
      calls (text "output") (text "t1") (text "ab") (text "day") (text "42") (text "hit")
      empty-Holds (refl, tt) refl refl

abbrev roster : List (DirectoryRecord ℕ)
roster = dept_record 3 4 5 ∷ employee_record 6 7 8 3 ∷ []

decode_records-encode_records_example :
    decode_records 0 loads json (encode_records 0 loads json roster) ≡ some roster
decode_records-encode_records_example = decode_records-encode_records 0 loads json loads-json roster

abbrev asking : Result Text (List (DirectoryRecord ℕ)) → Ask ℕ Text
asking fetched = record { tenant_id = text "t1"; op = text "depts"; fetched = fetched }

-- The second call finds the first one's line.
ask-IsSourced_example :
    IsSourced dict_store shift same_text made 0 loads json
      (asking (ok roster) ∷ [])
      (asking (err (text "down")))
      (ask dict_store shift same_text made 0 loads json
        (ask_all dict_store shift same_text made 0 loads json empty (asking (ok roster) ∷ []))
        (asking (err (text "down")))).1
ask-IsSourced_example =
    ask-IsSourced dict_store shift same_text made 0 loads json dict_store-IsStore shift-IsPlain
      loads-json empty (asking (ok roster) ∷ []) (asking (err (text "down"))) empty-Holds

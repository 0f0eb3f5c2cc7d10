-- ===== src/Storage/Memory.antt =====
-- A database in memory that obeys the laws of `KvStore`, for the tests.
use mathlib.Core.List.{Memᴰ}
use mathlib.Core.HLevel.{⊥_prop}
use mathlib.Core.Logic.{∥∥₁_elim}
use nowa_zk.Base.{
  ◌≡◌, ◌≢◌, refl, sym, ap, subst, ◌∙◌, false, Option, none, some, List, [], ◌∷◌, arith,
  if◌then◌else◌, Bool-cases, Option-cases, inl, inr, ◌⊎◌,
}
use nowa_zk.Base.Bytes.{Bytes, eqb, eq_of_eqb, eqb_refl}
use nowa_zk.Storage.{KvStore, KvLaws, after_prefix}

abbrev pub Entries : Type 0
Entries = List (Bytes × Bytes)

unfoldable pub lookup : Bytes → Entries → Option Bytes
lookup k [] = none
lookup k (e ∷ es) = let rest = lookup k es in if eqb k e.0 then some e.1 else rest

unfoldable pub remove : Bytes → Entries → Entries
remove k [] = []
remove k (e ∷ es) = let rest = remove k es in if eqb k e.0 then rest else e ∷ rest

unfoldable pub keys_of : Bytes → Entries → List Bytes
keys_of p [] = []
keys_of p (e ∷ es) =
    let rest = keys_of p es in elim (after_prefix p e.0) [ none ↦ rest | some s ↦ e.0 ∷ rest ]

abbrev pub memory : KvStore
memory = record {
  Db = Entries;
  get = lookup;
  set = λ k v es. (k, v) ∷ remove k es;
  delete = remove;
  keys = keys_of;
}

eqb_other : (j k : Bytes) → j ≢ k → eqb j k ≡ false
eqb_other j k other = elim (Bool-cases (eqb j k)) [
  | inl same ↦ absurd (other (eq_of_eqb j k same))
  | inr differs ↦ differs
]

lookup-remove : (k : Bytes) (es : Entries) → lookup k (remove k es) ≡ none
unfolding lookup remove
lookup-remove k [] = refl
lookup-remove k (e ∷ es) = elim (Bool-cases (eqb k e.0)) [
  | inl same ↦ ground (arith, same, lookup-remove k es)
  | inr differs ↦ ground (arith, differs, lookup-remove k es)
]

lookup-remove_other : (j k : Bytes) (es : Entries) → j ≢ k → lookup j (remove k es) ≡ lookup j es
unfolding lookup remove
lookup-remove_other j k [] other = refl
lookup-remove_other j k (e ∷ es) other = elim (Bool-cases (eqb k e.0)) [
  | inl same ↦
      let differs = eqb_other j e.0 (λ q. other (q ∙ sym (eq_of_eqb k e.0 same))) in
      ground (arith, same, differs, lookup-remove_other j k es other)
  | inr differs ↦ ground (arith, differs, lookup-remove_other j k es other)
]

mem_cases {ℓ} : {A : Type ℓ} {a b : A} {l : List A} → Memᴰ a (b ∷ l) → (a ≡ b) ⊎ Memᴰ a l
mem_cases (Memᴰ.head e) = inl e
mem_cases (Memᴰ.tail m) = inr m

-- The keys of an entry and of those behind it.
abbrev keys_from : Bytes → Bytes × Bytes → Entries → Option Bytes → List Bytes
keys_from p e es o = elim o [ none ↦ keys_of p es | some s ↦ e.0 ∷ keys_of p es ]

behind :
    (k : Bytes) (e : Bytes × Bytes) (es : Entries) → lookup k es ≢ none → lookup k (e ∷ es) ≢ none
unfolding lookup
behind k e es h q = elim (Bool-cases (eqb k e.0)) [
  | inl same ↦ ground (arith, same, q)
  | inr differs ↦ h (ground (arith, differs, q))
]

found : (k : Bytes) (e : Bytes × Bytes) (es : Entries) → k ≡ e.0 → lookup k (e ∷ es) ≢ none
unfolding lookup
found k e es same q = let t = ap (λ j. eqb j e.0) same ∙ eqb_refl e.0 in ground (arith, t, q)

mem→stored :
    (p k : Bytes) (es : Entries)
    → Memᴰ k (keys_of p es)
    → (after_prefix p k ≢ none) × (lookup k es ≢ none)
unfolding lookup keys_of
mem→stored p k [] m = elim m [ ]
mem→stored p k (e ∷ es) m =
    (elim (after_prefix p e.0)
        as (λ o.
          after_prefix p e.0 ≡ o
          → Memᴰ k (keys_from p e es o)
          → (after_prefix p k ≢ none) × (lookup k (e ∷ es) ≢ none)) [
            | none ↦ λ q n. let r = mem→stored p k es n in (r.0, behind k e es r.1)
            | some s ↦ λ q n. elim (mem_cases n) [
              | inl same ↦ (
                λ miss. let t = ap (after_prefix p) same ∙ q in ground (arith, t, miss),
                found k e es same,
              )
              | inr m ↦ let r = mem→stored p k es m in (r.0, behind k e es r.1)
            ]
          ])
      refl m

stored→mem :
    (p k : Bytes) (es : Entries)
    → after_prefix p k ≢ none
    → lookup k es ≢ none
    → Memᴰ k (keys_of p es)
unfolding lookup keys_of
stored→mem p k [] h s = absurd (s refl)
stored→mem p k (e ∷ es) h s = elim (Bool-cases (eqb k e.0)) [
  | inl same ↦
      let eq = eq_of_eqb k e.0 same in
      elim (Option-cases (after_prefix p e.0)) [
        | inl none_there ↦ absurd (h (ap (after_prefix p) eq ∙ none_there))
        | inr rest ↦ subst (λ o. Memᴰ k (keys_from p e es o)) (sym rest.1) (Memᴰ.head eq)
      ]
  | inr differs ↦
      let behind_e = stored→mem p k es h (λ q. s (ground (arith, differs, q))) in
      elim (after_prefix p e.0) as (λ o. Memᴰ k (keys_from p e es o)) [
        | none ↦ behind_e
        | some _ ↦ Memᴰ.tail behind_e
      ]
]

pub memory_laws : KvLaws memory
unfolding lookup remove keys_of
memory_laws = record {
  get_set = λ k v es. ap (λ t. if t then some v else lookup k (remove k es)) (eqb_refl k);
  get-set_other = λ j k v es other.
      ap (λ t. if t then some v else lookup j (remove k es)) (eqb_other j k other)
      ∙ lookup-remove_other j k es other;
  get_delete = lookup-remove;
  get-delete_other = lookup-remove_other;
  mem-keys = λ p k es. (
    λ m. (
      λ e. ∥∥₁_elim m ⊥_prop (λ d. (mem→stored p k es d).0 e),
      λ e. ∥∥₁_elim m ⊥_prop (λ d. (mem→stored p k es d).1 e),
    ),
    λ s. ∣ stored→mem p k es s.0 s.1 ∣₁,
  );
}

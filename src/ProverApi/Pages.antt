-- ===== src/ProverApi/Pages.antt =====
-- `handleGetBatches`: the pages that it serves, joined, are the batches, newest first.
use native.Mathlib.Nat.{mul-le-mul_left}
use nowa_zk.Base.{
  ℕ, zero, suc, ◌+◌, ◌-◌, ◌*◌, ◌%◌, ◌^◌, ◌<◌, ◌≤◌, ◌≡◌, refl, sym, ap, ◌∙◌, List, [], ◌∷◌, ◌++◌,
  length, take, drop, map, arith,
}
use nowa_zk.Base.Int.{ℤ, pos, negsuc}
use nowa_zk.Storage.{KvStore, KvLaws, Codecs, ProofData, get_batches, get_total_batches}
use nowa_zk.Storage.Kept.{IsKept}
use nowa_zk.Storage.Pages.{IsPage, newest_first, get_batches-IsPage}
use nowa_zk.ProverApi.{
  BatchesResponse, Reply, sent, bad_request, not_found, server_error, crashed, batch_response,
  batches_reply, get_page, handle_get_batches, normal_limit, offset_of, total_pages_of,
}

normal_limit-bounds : (z : ℤ) → (10 ≤ normal_limit z) × (normal_limit z ≤ 100)
unfolding normal_limit
normal_limit-bounds (pos n) = ground arith
normal_limit-bounds (negsuc n) = omega arith

-- The numbers of the batches of a page; an error has none.
abbrev pub numbers_of : Reply BatchesResponse → List ℕ
numbers_of (sent r) = map (λ b. b.batch_number) r.batches
numbers_of bad_request = []
numbers_of not_found = []
numbers_of server_error = []
numbers_of crashed = []

shift_suc : (m n : ℕ) → suc (m + n) ≡ suc m + n
shift_suc m n = omega arith

take_empty : (n : ℕ) → take {A = ℕ} n [] ≡ []
take_empty zero = refl
take_empty (suc n) = refl

take_add : (m n : ℕ) (xs : List ℕ) → take m xs ++ take n (drop m xs) ≡ take (m + n) xs
take_add zero n xs = ap (λ k. take k xs) (omega arith)
take_add (suc m) n [] = take_empty n ∙ sym (take_empty (suc m + n))
take_add (suc m) n (x ∷ xs) =
    ap (◌∷◌ x) (take_add m n xs) ∙ ap (λ k. take k (x ∷ xs)) (shift_suc m n)

map-batch_response :
    (ds : List ProofData)
    → map (λ b. b.batch_number) (map batch_response ds) ≡ map (λ d. d.batch_number) ds
unfolding batch_response
map-batch_response [] = refl
map-batch_response (d ∷ ds) = ap (◌∷◌ d.batch_number) (map-batch_response ds)

offset_bound : (n l : ℕ) → l ≤ 100 → suc n * 100 < 2 ^ 63 → n * l + l < 2 ^ 63
offset_bound n l h k = grind (arith, mul-le-mul_left n h)

pred_suc : (n : ℕ) → suc n - 1 ≡ n
pred_suc n = omega arith

small_word : (k : ℕ) → k < 2 ^ 63 → k % 2 ^ 64 ≡ k
small_word k h = omega arith

offset_eq : (n l : ℕ) → n * l + l < 2 ^ 63 → offset_of (suc n) l ≡ n * l
unfolding offset_of
offset_eq n l h = ap (λ k. k * l % 2 ^ 64) (pred_suc n) ∙ small_word (n * l) (omega arith)

zero_product : (l : ℕ) → 0 ≡ 0 * l
zero_product l = omega arith

next_product : (n l : ℕ) → n * l + l ≡ suc n * l
next_product n l = grind arith

module _ (kv : KvStore) (codecs : Codecs) where
  -- The pages from 1 to `n`, joined.
  abbrev pub joined : ℤ → ℕ → kv.Db → List ℕ
  joined limit zero db = []
  joined limit (suc n) db =
      joined limit n db ++ numbers_of (handle_get_batches kv codecs (pos (suc n)) limit db)

  module _ (laws : KvLaws kv) (db : kv.Db) (kept : IsKept kv codecs db) where
    -- The page after `skipped` others: the records of the store for its part of the list.
    pub record IsServed (skipped limit : ℕ) (r : Reply BatchesResponse) : Type 0 where
      pub found : List ProofData
      pub in_store : IsPage kv codecs db (skipped * limit) limit found
      pub served :
          r
          ≡ sent (record {
            page_number = suc skipped;
            limit = limit;
            count = length found;
            total_pages = total_pages_of (get_total_batches kv codecs db) limit;
            batches = map batch_response found;
          })

    get_page-IsServed :
        (n l : ℕ) → n * l + l < 2 ^ 63 → IsServed n l (get_page kv codecs (suc n) l db)
    unfolding get_page
    get_page-IsServed n l h =
        let stored = (get_batches-IsPage kv codecs db laws kept (n * l) l h).0 in
        record {
          found = stored.0;
          in_store = stored.2;
          served =
              ap (λ o. batches_reply kv codecs (suc n) l (get_batches kv codecs o l db) db)
                (offset_eq n l h)
              ∙ ap (λ ls. batches_reply kv codecs (suc n) l ls db) stored.1;
        }

    served_numbers :
        (n l : ℕ) (r : Reply BatchesResponse)
        → IsServed n l r
        → numbers_of r ≡ take l (drop (n * l) (newest_first kv codecs db))
    served_numbers n l r s =
        ap numbers_of s.served ∙ map-batch_response s.found ∙ s.in_store.numbers

    handle-IsServed :
        (n : ℕ) (limit : ℤ)
        → suc n * 100 < 2 ^ 63
        → IsServed n (normal_limit limit) (handle_get_batches kv codecs (pos (suc n)) limit db)
    unfolding handle_get_batches
    handle-IsServed n limit h =
        get_page-IsServed n (normal_limit limit)
          (offset_bound n (normal_limit limit) (normal_limit-bounds limit).1 h)

    -- Where the entries of the store are in order and a hundred times the page is below 2^63, the
    -- page after the first `n` is served with the records of its part of the list of all batches,
    -- newest first; and the first `n` pages, joined, are that list, or its first `n` times limit
    -- batches, where the limit is the one that is used.
    pub handle_get_batches-IsServed :
        (n : ℕ) (limit : ℤ)
        → suc n * 100 < 2 ^ 63
        → IsServed n (normal_limit limit) (handle_get_batches kv codecs (pos (suc n)) limit db)
          × (joined limit n db ≡ take (n * normal_limit limit) (newest_first kv codecs db))
    handle_get_batches-IsServed zero limit h = (
      handle-IsServed zero limit h,
      ap (λ k. take k (newest_first kv codecs db)) (zero_product (normal_limit limit)),
    )
    handle_get_batches-IsServed (suc n) limit h =
        let before = handle_get_batches-IsServed n limit (omega arith) in
        let l = normal_limit limit in
        let all = newest_first kv codecs db in
        (
          handle-IsServed (suc n) limit h,
          ap (λ xs. xs ++ numbers_of (handle_get_batches kv codecs (pos (suc n)) limit db)) before.1
              ∙ ap (λ xs. take (n * l) all ++ xs) (served_numbers n l _ before.0)
              ∙ take_add (n * l) l all
              ∙ ap (λ k. take k all) (next_product n l),
        )

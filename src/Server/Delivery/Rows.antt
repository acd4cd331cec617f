-- ===== src/Server/Delivery/Rows.antt =====
-- The rows of an upload as its chunks come in: the one row of its id, and its new chunk.
use mathlib.Core.Bool.{true≢false}
use mathlib.Core.Option.{some-injective}
use cloud_file.Base.{
  ℕ, suc, ◌==◌, ◌≡◌, refl, ap, sym, subst, ◌∙◌, Bool, true, false, ◌&&◌, String, List, [], ◌∷◌, map,
  none, some, find, any, keep, length, Bool-cases, inl, inr, arith,
}
use cloud_file.Server.Model.{UploadTask}
use cloud_file.Server.World.{Tables, change_rows}
use cloud_file.Server.Rows.{
  InitRequest, is_upload_of, is_chunk_of, new_chunk, counted_one, create_chunk, count_chunk,
}
use cloud_file.Server.Tables.{Distinct}
use cloud_file.Server.Tables.Rows.{any-add}
use cloud_file.Server.Action.Rules.{Ends}
use cloud_file.Server.Delivery.{Sent}

module _ {A : Type 0} where
  -- the row that a test finds, changed
  pub find-change :
      (p test : A → Bool) (f : A → A)
      → ((a : A) → p (f a) ≡ p a)
      → (rows : List A) (a : A) → find p rows ≡ some a
      → test a ≡ true
      → find p (change_rows test f rows) ≡ some (f a)
  find-change p test f same [] a e h = cc
  find-change p test f same (b ∷ rows) a e h = elim (Bool-cases (p b)) [
    | inl g ↦
        let here : b ≡ a = some-injective _ _ (rw g at e) in
        rw (subst (λ x. test x ≡ true) (sym here) h, same b, g) (ap (λ x. some (f x)) here)
    | inr g ↦ elim (Bool-cases (test b)) [
      | inl k ↦ rw (k, same b, g) (find-change p test f same rows a (rw g at e) h)
      | inr k ↦ rw (k, g) (find-change p test f same rows a (rw g at e) h)
    ]
  ]

  pub find-none : (p : A → Bool) (rows : List A) → any p rows ≡ false → find p rows ≡ none
  find-none p [] h = refl
  find-none p (a ∷ rows) h = elim (Bool-cases (p a)) [
    | inl e ↦ absurd (true≢false (rw e at h))
    | inr e ↦ rw e (find-none p rows (rw e at h))
  ]

-- no other upload has the id
keep_others :
    (q : UploadTask → Bool) (id : ℕ) (us : List UploadTask)
    → ((u : UploadTask) → q u ≡ true → u.id ≡ id)
    → any (λ j. j == id) (map (λ u. u.id) us) ≡ false
    → keep q us ≡ []
keep_others q id [] h d = refl
keep_others q id (u ∷ us) h d = elim (Bool-cases (q u)) [
  | inl e ↦
      let hit : (u.id == id) ≡ true = ground (arith, h u e) in absurd (true≢false (rw hit at d))
  | inr e ↦ elim (Bool-cases (u.id == id)) [
    | inl k ↦ absurd (true≢false (rw k at d))
    | inr k ↦ rw e (keep_others q id us h (rw k at d))
  ]
]

-- of uploads with different ids, one has the id
pub length-keep_one :
    (p q : UploadTask → Bool) (id : ℕ) (us : List UploadTask) (task : UploadTask)
    → ((u : UploadTask) → p u ≡ true → u.id ≡ id)
    → ((u : UploadTask) → q u ≡ true → p u ≡ true)
    → Distinct (map (λ u. u.id) us)
    → find p us ≡ some task
    → q task ≡ true
    → length (keep q us) ≡ 1
length-keep_one p q id [] task ids sub d e h = cc
length-keep_one p q id (u ∷ us) task ids sub (d, ds) e h = elim (Bool-cases (p u)) [
  | inl g ↦
      let here : u ≡ task = some-injective _ _ (rw g at e) in
      let hit : q u ≡ true = subst (λ x. q x ≡ true) (sym here) h in
      rw (
        hit,
        keep_others q id us (λ v k. ids v (sub v k))
            (subst (λ n. any (λ j. j == n) (map (λ v. v.id) us) ≡ false) (ids u g) d),
      )
  | inr g ↦ elim (Bool-cases (q u)) [
    | inl k ↦ absurd (true≢false (sym (sub u k) ∙ g))
    | inr k ↦ rw k (length-keep_one p q id us task ids sub ds (rw g at e) h)
  ]
]

pub and_false : (b : Bool) → (b && false) ≡ false
and_false true = refl
and_false false = refl

module _ (req : InitRequest) (id : ℕ) where
  -- the row of the next chunk
  pub Sent-create_chunk :
      (n : ℕ) (hash : String) (size : ℕ) (t : Tables)
      → Sent req id n n t
      → Ends (λ a. Sent req id n (suc n)) (λ t. ⊥) (create_chunk (new_chunk id n hash size) t)
  Sent-create_chunk n hash size t h = rw (h.fresh n (omega arith)) (record {
    task = h.task;
    row = h.row;
    sent = h.sent;
    fresh = λ i l.
        let apart : (n == i) ≡ false = ground (arith, l) in
        rw
          (
            any-add (is_chunk_of id i) t.chunks (new_chunk id n hash size),
            h.fresh i (omega (arith, l)),
            apart,
          )
          (and_false (id == id));
  })

  pub Sent-count_chunk :
      (n now : ℕ) (t : Tables)
      → Sent req id n (suc n) t
      → Sent req id (suc n) (suc n) (count_chunk id now t).1
  Sent-count_chunk n now t h = record {
    task = counted_one now h.task;
    row =
        find-change (is_upload_of id req.user_id) (λ u. u.id == id) (counted_one now) (λ u. refl)
          t.uploads h.task h.row (ground (arith, h.sent.id_of));
    sent = record {
      id_of = h.sent.id_of;
      open_still = refl;
      counted = omega (arith, h.sent.counted);
      size = h.sent.size;
      count = h.sent.count;
      file_size = h.sent.file_size;
      hash = h.sent.hash;
    };
    fresh = h.fresh;
  }

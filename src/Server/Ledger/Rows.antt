-- ===== src/Server/Ledger/Rows.antt =====
-- The ledger of the rows of backend/internal/service/service.go, before and after they change.
use mathlib.Core.Option.{some-injective}
use cloud_file.Base.{
  ℕ, ◌==◌, ◌≡◌, refl, sym, subst, Bool, true, false, ◌&&◌, ◌||◌, String, List, [], ◌∷◌, ◌++◌, some,
  any, find, Bool-cases, inl, inr, arith,
}
use cloud_file.Server.Model.{UploadTask, UploadChunk, is_uploaded}
use cloud_file.Server.World.{Tables, change_rows}
use cloud_file.Server.Rows.{InitRequest, is_chunk_of, new_chunk, create_upload, save_chunk}
use cloud_file.Server.Tables.Rows.{any-add}
use cloud_file.Server.Ledger.{Ledger, ledger, is_open_as, is_received, opening, receiving}

-- two ledgers that answer alike
ledger_ext :
    (l m : Ledger)
    → ((id : ℕ) (user_id : String) (size count : ℕ)
        → l.opened id user_id size count ≡ m.opened id user_id size count)
    → ((id i : ℕ) → l.received id i ≡ m.received id i)
    → l ≡ m
ledger_ext l m o r = λ k. record { opened = λ j u s c. o j u s c k; received = λ j i. r j i k }

pub ledger_same :
    (t t' : Tables) → t'.uploads ≡ t.uploads → t'.chunks ≡ t.chunks → ledger t' ≡ ledger t
ledger_same t t' e f = rw (e, f)

pub or_true : (b : Bool) → (b || true) ≡ true
or_true true = refl
or_true false = refl

pub or_false : (b : Bool) → (b || false) ≡ b
or_false true = refl
or_false false = refl

pub and_true : (b : Bool) → (b && true) ≡ b
and_true true = refl
and_true false = refl

module _ {A : Type 0} where
  any-change :
      (p test : A → Bool) (f : A → A)
      → ((a : A) → test a ≡ true → p (f a) ≡ p a)
      → (rows : List A) → any p (change_rows test f rows) ≡ any p rows
  any-change p test f h [] = refl
  any-change p test f h (a ∷ rows) = elim (Bool-cases (test a)) [
    | inl e ↦ rw (e, h a e, any-change p test f h rows)
    | inr e ↦ rw (e, any-change p test f h rows)
  ]

  -- a row that another test found
  pub find-any :
      (p test : A → Bool) (rows : List A) (a : A)
      → find test rows ≡ some a
      → p a ≡ true
      → any p rows ≡ true
  find-any p test [] a e h = cc
  find-any p test (b ∷ rows) a e h = elim (Bool-cases (test b)) [
    | inl f ↦ rw (subst (λ c. p c ≡ true) (sym (some-injective _ _ (rw f at e))) h)
    | inr f ↦ rw (find-any p test rows a (rw f at e) h) (or_true (p b))
  ]

  any-replaced :
      (p test : A → Bool) (rows : List A) (a b : A)
      → find test rows ≡ some a
      → p b ≡ true
      → any p (change_rows test (λ _. b) rows) ≡ true
  any-replaced p test [] a b e h = cc
  any-replaced p test (c ∷ rows) a b e h = elim (Bool-cases (test c)) [
    | inl f ↦ rw (f, h)
    | inr f ↦ rw (f, any-replaced p test rows a b (rw f at e) h) (or_true (p c))
  ]

  pub find-test :
      (test : A → Bool) (rows : List A) (a : A) → find test rows ≡ some a → test a ≡ true
  find-test test [] a e = cc
  find-test test (b ∷ rows) a e = elim (Bool-cases (test b)) [
    | inl f ↦ subst (λ c. test c ≡ true) (some-injective _ _ (rw f at e)) f
    | inr f ↦ find-test test rows a (rw f at e)
  ]

-- uploads whose shape stays
pub ledger-update :
    (t : Tables) (test : UploadTask → Bool) (f : UploadTask → UploadTask)
    → ((u : UploadTask) → (f u).id ≡ u.id)
    → ((u : UploadTask) → (f u).user_id ≡ u.user_id)
    → ((u : UploadTask) → (f u).chunk_size ≡ u.chunk_size)
    → ((u : UploadTask) → (f u).chunk_count ≡ u.chunk_count)
    → ledger (record t { uploads = change_rows test f t.uploads }) ≡ ledger t
ledger-update t test f ids users sizes counts =
    ledger_ext _ _
      (λ id user_id size count.
        any-change (is_open_as id user_id size count) test f
          (λ u h. rw (ids u, users u, sizes u, counts u)) t.uploads)
      (λ id i. refl)

pub ledger-create_upload :
    (req : InitRequest) (now : ℕ) (t : Tables)
    → ledger (create_upload req now t).1 ≡ opening t.next_id req (ledger t)
ledger-create_upload req now t =
    ledger_ext _ _ (λ id user_id size count. any-add (is_open_as id user_id size count) t.uploads _)
      (λ id i. refl)

-- the chunk `i` of the upload `id`, asked for by `j` and `k`
same_chunk :
    (id i j k : ℕ) (r : UploadChunk)
    → is_chunk_of id i r ≡ true
    → is_chunk_of j k r ≡ (id == j && i == k)
same_chunk id i j k r h = ground arith

received-both :
    (id i j k : ℕ) (r : UploadChunk)
    → is_chunk_of id i r ≡ true
    → is_received j k r ≡ ((id == j && i == k) && is_uploaded r.status)
received-both id i j k r h = rw (same_chunk id i j k r h)

module _ (id i : ℕ) (hash : String) (size : ℕ) where
  pub ledger-create_chunk :
      (t : Tables)
      → ledger (record t { chunks = t.chunks ++ new_chunk id i hash size ∷ [] })
        ≡ receiving id i (ledger t)
  ledger-create_chunk t =
      ledger_ext _ _ (λ j u s c. refl)
        (λ j k. rw (
          any-add (is_received j k) t.chunks (new_chunk id i hash size),
          and_true (id == j && i == k),
        ))

  -- a row saved over, or found uploaded
  known_received :
      (t : Tables) (old : UploadChunk) (j k : ℕ)
      → find (is_chunk_of id i) t.chunks ≡ some old
      → is_uploaded old.status ≡ true
      → any (is_received j k) t.chunks ≡ (any (is_received j k) t.chunks || (id == j && i == k))
  known_received t old j k e h = elim (Bool-cases (id == j && i == k)) [
    | inr f ↦ rw f (sym (or_false _))
    | inl f ↦
        let found : any (is_received j k) t.chunks ≡ true =
          find-any (is_received j k) (is_chunk_of id i) t.chunks old e
            (rw (received-both id i j k old (find-test _ t.chunks old e), f) h) in
        rw found
  ]

  saved_received :
      (t : Tables) (old : UploadChunk) (j k : ℕ)
      → find (is_chunk_of id i) t.chunks ≡ some old
      → any (is_received j k) (save_chunk (new_chunk id i hash size) t).1.chunks
        ≡ (any (is_received j k) t.chunks || (id == j && i == k))
  saved_received t old j k e = elim (Bool-cases (id == j && i == k)) [
    | inl f ↦
        rw
          (
            f,
            any-replaced (is_received j k) (is_chunk_of id i) t.chunks old
                (new_chunk id i hash size) e (rw f),
          )
          (sym (or_true _))
    | inr f ↦
        rw
          (
            f,
            any-change (is_received j k) (is_chunk_of id i) (λ _. new_chunk id i hash size)
                (λ r h. rw (received-both id i j k r h, f)) t.chunks,
          )
          (sym (or_false _))
  ]

  pub ledger-known :
      (t : Tables) (old : UploadChunk)
      → find (is_chunk_of id i) t.chunks ≡ some old
      → is_uploaded old.status ≡ true
      → ledger t ≡ receiving id i (ledger t)
  ledger-known t old e h = ledger_ext _ _ (λ j u s c. refl) (λ j k. known_received t old j k e h)

  pub ledger-save_chunk :
      (t : Tables) (old : UploadChunk)
      → find (is_chunk_of id i) t.chunks ≡ some old
      → ledger (save_chunk (new_chunk id i hash size) t).1 ≡ receiving id i (ledger t)
  ledger-save_chunk t old e = ledger_ext _ _ (λ j u s c. refl) (λ j k. saved_received t old j k e)

-- ===== src/Db/Table.antt =====
-- SQL statements over one table, a list of rows.
use mathlib.Core.List.{Mem, mem-cons_self, mem-cons_of_mem}
use kauth_go.Prelude.{
  ℕ, suc, ◌≡◌, refl, Bool, true, false, Option, none, some, List, [], ◌∷◌, ◌++◌, max, arith, All,
  ◌||◌, if◌then◌else◌,
}

module _ {ℓ} {R : Type ℓ} where
  -- SELECT … WHERE p, the first row.
  unfoldable pub select_first : (R → Bool) → List R → Option R
  select_first p [] = none
  select_first p (r ∷ rs) = if p r then some r else select_first p rs

  unfoldable pub exists_where : (R → Bool) → List R → Bool
  exists_where p [] = false
  exists_where p (r ∷ rs) = p r || exists_where p rs

  -- UPDATE … SET f WHERE p.
  unfoldable pub update_where : (R → Bool) → (R → R) → List R → List R
  update_where p f [] = []
  update_where p f (r ∷ rs) = (if p r then f r else r) ∷ update_where p f rs

  -- DELETE … WHERE p.
  unfoldable pub delete_where : (R → Bool) → List R → List R
  delete_where p [] = []
  delete_where p (r ∷ rs) = let rest = delete_where p rs in if p r then rest else r ∷ rest

  -- INSERT: the new row stands last.
  abbrev pub insert_row : R → List R → List R
  insert_row r rs = rs ++ r ∷ []

  -- The key that SQLite gives a new row of a table with INTEGER PRIMARY KEY.
  unfoldable pub next_id : (R → ℕ) → List R → ℕ
  next_id id [] = 1
  next_id id (r ∷ rs) = max (suc (id r)) (next_id id rs)

module _ {ℓ κ} {R : Type ℓ} (P : R → Type κ) where
  pub All-insert_row : (r : R) (rs : List R) → All P rs → P r → All P (insert_row r rs)
  All-insert_row r [] h k = (k, tt)
  All-insert_row r (x ∷ rs) h k = (h.0, All-insert_row r rs h.1 k)

  pub All-delete_where : (p : R → Bool) (rs : List R) → All P rs → All P (delete_where p rs)
  unfolding delete_where
  All-delete_where p [] h = tt
  All-delete_where p (r ∷ rs) h = ground (arith, All-delete_where p rs h.1)

  pub All-update_where :
      (p : R → Bool) (f : R → R) (rs : List R)
      → ((r : R) → p r ≡ true → P r → P (f r))
      → All P rs
      → All P (update_where p f rs)
  unfolding update_where
  All-update_where p f [] k h = tt
  All-update_where p f (r ∷ rs) k h = (go (p r) refl, All-update_where p f rs k h.1)
    where
      go : (b : Bool) → p r ≡ b → P (if b then f r else r)
      go true e = k r e h.0
      go false e = h.0

  -- What an update establishes for the rows that it hits and the others had holds of all.
  pub All-update_where_hit :
      (p : R → Bool) (f : R → R) (rs : List R)
      → ((r : R) → p r ≡ true → P (f r))
      → ((r : R) → p r ≡ false → P r)
      → All P (update_where p f rs)
  unfolding update_where
  All-update_where_hit p f [] k m = tt
  All-update_where_hit p f (r ∷ rs) k m = (go (p r) refl, All-update_where_hit p f rs k m)
    where
      go : (b : Bool) → p r ≡ b → P (if b then f r else r)
      go true e = k r e
      go false e = m r e

  -- The row that a SELECT finds meets its condition and what holds of all rows.
  pub select_first-All :
      (p : R → Bool) (rs : List R) (r : R) → select_first p rs ≡ some r → All P rs → P r
  unfolding select_first
  select_first-All p [] r e h = cc
  select_first-All p (x ∷ rs) r e h = go (p x) refl (λ e'. select_first-All p rs r e' h.1)
    where
      go : (b : Bool) → p x ≡ b → (select_first p rs ≡ some r → P r) → P r
      go true t rest = let same : x ≡ r = ground arith in rw (← same) h.0
      go false t rest = rest (ground arith)

module _ {ℓ} {R : Type ℓ} where
  pub select_first-true :
      (p : R → Bool) (rs : List R) (r : R) → select_first p rs ≡ some r → p r ≡ true
  unfolding select_first
  select_first-true p [] r e = cc
  select_first-true p (x ∷ rs) r e = ground (arith, select_first-true p rs r)

  pub select_first-Mem :
      (p : R → Bool) (rs : List R) (r : R) → select_first p rs ≡ some r → Mem r rs
  unfolding select_first
  select_first-Mem p [] r e = cc
  select_first-Mem p (x ∷ rs) r e = go (p x) (λ e'. select_first-Mem p rs r e') e
    where
      go :
          (b : Bool)
          → (select_first p rs ≡ some r → Mem r rs)
          → (if b then some x else select_first p rs) ≡ some r
          → Mem r (x ∷ rs)
      go true rest h = let same : x ≡ r = cc in rw same mem-cons_self
      go false rest h = mem-cons_of_mem x (rest h)

  pub select_first-none :
      (p : R → Bool) (rs : List R) → All (λ r. p r ≡ false) rs → select_first p rs ≡ none
  unfolding select_first
  select_first-none p [] h = refl
  select_first-none p (r ∷ rs) h = ground (arith, select_first-none p rs h.1)

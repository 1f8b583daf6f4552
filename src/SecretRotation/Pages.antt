-- ===== src/SecretRotation/Pages.antt =====
-- Keyset pagination visits every row once.
use jewel.Prelude.{
  ℕ, zero, suc, ◌+◌, ◌≤◌, ◌<◌, ◌≡◌, refl, Bool, true, Text, Option, none, some, [], ◌∷◌, ◌++◌, map,
  keep, take, drop, All, All-take, All-mono, take-append-drop, length-drop, lt→ltb, if◌then◌else◌,
  length, Bool-cases, inl, inr, Option-cases, arith, ap,
}
use jewel.SecretRotation.{
  Row, Table, Env, Pass, Attempt, fetch_batch_size, is_after, select_page, update, last_pk,
  normalise_if_jsonb_value, reencrypt_value, written, write_row, reencrypt_row, and_then,
  reencrypt_rows, add_pass, page_step, paginated_reencrypt,
}
use jewel.SecretRotation.Sorted.{
  IsSorted, after_page, last_pk-lt, select_page-skip, last_pk-le, below_page, IsSorted-append,
  keep_after,
}

module _ (E : Env) (dry_run is_jsonb : Bool) where
  abbrev pub attempt : Row → Attempt
  attempt r = reencrypt_value E (E.iv r.pk) (normalise_if_jsonb_value E r.raw)

  -- What becomes of a row, by itself.
  abbrev pub rotated_by : Row → Option Text → Row
  rotated_by r none = r
  rotated_by r (some v) = if dry_run then r else record r { raw = written E is_jsonb v }

  abbrev pub rotated : Row → Row
  rotated r = rotated_by r (attempt r).0

  abbrev pub counted : Option Text → ℕ
  counted none = 0
  counted (some v) = 1

  -- The totals over a table, row by row.
  abbrev pub total_count : Table → ℕ
  total_count [] = 0
  total_count (r ∷ t) = counted (attempt r).0 + total_count t

  abbrev pub total_skipped : Table → ℕ
  total_skipped [] = 0
  total_skipped (r ∷ t) = (attempt r).1 + total_skipped t

  abbrev pub by_row : Table → Pass Table
  by_row t = record { count = total_count t; skipped = total_skipped t; table = map rotated t }

  abbrev pub under : Table → Pass Table → Pass Table
  under done p = record p { table = done ++ p.table }

  write_row-head :
      (r : Row) (t : Table) (a : Attempt)
      → write_row E dry_run is_jsonb r.pk a (r ∷ t)
        ≡ record { count = counted a.0; skipped = a.1; table = rotated_by r a.0 ∷ t }
  unfolding update
  write_row-head r t (none, skips) = refl
  write_row-head r t (some v, skips) = ground arith

  write_row-under :
      (r s : Row) (t : Table) (a : Attempt)
      → r.pk < s.pk
      → write_row E dry_run is_jsonb s.pk a (r ∷ t)
        ≡ under (r ∷ []) (write_row E dry_run is_jsonb s.pk a t)
  unfolding update
  write_row-under r s t (none, skips) h = refl
  write_row-under r s t (some v, skips) h = ground arith

  -- Rows above a given one do not touch it.
  rows-under :
      (r : Row) (rows t : Table)
      → All (λ s. r.pk < s.pk) rows
      → reencrypt_rows E dry_run is_jsonb rows (r ∷ t)
        ≡ under (r ∷ []) (reencrypt_rows E dry_run is_jsonb rows t)
  unfolding reencrypt_rows
  rows-under r [] t h = refl
  rows-under r (s ∷ rows) t h =
      rw
        (
          write_row-under r s t (attempt s) h.0,
          rows-under r rows (reencrypt_row E dry_run is_jsonb s t).table h.1,
        )
        refl

  pub rotated_by_pk : (r : Row) (o : Option Text) → (rotated_by r o).pk ≡ r.pk
  rotated_by_pk r none = refl
  rotated_by_pk r (some v) = elim (Bool-cases dry_run) [ inl e ↦ rw e refl | inr e ↦ rw e refl ]

  -- The rows of a page that heads the table are replaced one by one.
  rows-by_row :
      (rows rest : Table)
      → IsSorted rows
      → reencrypt_rows E dry_run is_jsonb rows (rows ++ rest)
        ≡ under (map rotated rows) (record (by_row rows) { table = rest })
  unfolding reencrypt_rows
  rows-by_row [] rest h = refl
  rows-by_row (r ∷ rows) rest h =
      let above : All (λ s. (rotated r).pk < s.pk) rows = rw (rotated_by_pk r (attempt r).0) h.0 in
      rw
        (
          write_row-head r (rows ++ rest) (attempt r),
          rows-under (rotated r) rows (rows ++ rest) above,
          rows-by_row rows rest h.1,
        )
        refl

  abbrev under_option : Table → Option (Pass Table) → Option (Pass Table)
  under_option done none = none
  under_option done (some p) = some (under done p)

  add_pass-under :
      (d : Row) (p : Pass Table) (o : Option (Pass Table))
      → add_pass E (under (d ∷ []) p) (under_option (d ∷ []) o)
        ≡ under_option (d ∷ []) (add_pass E p o)
  add_pass-under d p none = refl
  add_pass-under d p (some q) = refl

  -- The rows that the query after a page cannot return stay as they are.
  page-under :
      (d : Row) (m : ℕ) (rows t : Table) (next next' : ℕ → Table → Option (Pass Table))
      → d.pk ≤ m
      → All (λ r. m < r.pk) rows
      → ((n : ℕ) (t' : Table) → d.pk ≤ n → next n (d ∷ t') ≡ under_option (d ∷ []) (next' n t'))
      → page_step E dry_run is_jsonb rows next (d ∷ t)
        ≡ under_option (d ∷ []) (page_step E dry_run is_jsonb rows next' t)
  page-under d m [] t next next' h above rest = refl
  page-under d m (r ∷ rows) t next next' h above rest =
      let below : All (λ s. d.pk < s.pk) (r ∷ rows) =
        All-mono _ _ (λ s lt. omega arith) (r ∷ rows) above in
      let far : d.pk ≤ last_pk r rows = omega (arith, last_pk-lt m r rows above) in
      rw
        (
          rows-under d (r ∷ rows) t below,
          rest (last_pk r rows) (reencrypt_rows E dry_run is_jsonb (r ∷ rows) t).table far,
        )
        (add_pass-under d (reencrypt_rows E dry_run is_jsonb (r ∷ rows) t) _)

  loop-under :
      (fuel m : ℕ) (d : Row) (t : Table)
      → d.pk ≤ m
      → paginated_reencrypt E fuel dry_run is_jsonb (some m) (d ∷ t)
        ≡ under_option (d ∷ []) (paginated_reencrypt E fuel dry_run is_jsonb (some m) t)
  unfolding paginated_reencrypt select_page
  loop-under zero m d t h = refl
  loop-under (suc fuel) m d t h = rw (select_page-skip m d t h) (
      page-under d m (select_page (some m) t) t _ _ h
        (All-take _ fetch_batch_size _ (after_page m t)) (λ n t' le. loop-under fuel n d t' le))

  under_option_twice :
      (d : Row) (done : Table) (o : Option (Pass Table))
      → under_option (d ∷ []) (under_option done o) ≡ under_option (d ∷ done) o
  under_option_twice d done none = refl
  under_option_twice d done (some p) = refl

  loops-under :
      (fuel m : ℕ) (done t : Table)
      → All (λ d. d.pk ≤ m) done
      → paginated_reencrypt E fuel dry_run is_jsonb (some m) (done ++ t)
        ≡ under_option done (paginated_reencrypt E fuel dry_run is_jsonb (some m) t)
  loops-under fuel m [] t h =
      elim (Option-cases (paginated_reencrypt E fuel dry_run is_jsonb (some m) t)) [
        | inl e ↦ rw e refl
        | inr (p, e) ↦ rw e refl
      ]
  loops-under fuel m (d ∷ done) t h =
      rw (loop-under fuel m d (done ++ t) h.0, loops-under fuel m done t h.1)
        (under_option_twice d done (paginated_reencrypt E fuel dry_run is_jsonb (some m) t))

  rotated-le :
      (r : Row) (rows : Table)
      → IsSorted (r ∷ rows)
      → All (λ s. s.pk ≤ last_pk r rows) (map rotated (r ∷ rows))
  unfolding last_pk
  rotated-le r [] h = (omega (arith, rotated_by_pk r (attempt r).0), tt)
  rotated-le r (s ∷ rows) h = (
    omega (arith, rotated_by_pk r (attempt r).0, last_pk-le r (s ∷ rows) h),
    rotated-le s rows h.1,
  )

  total_count-append :
      (rows rest : Table) → total_count rows + total_count rest ≡ total_count (rows ++ rest)
  total_count-append [] rest = omega arith
  total_count-append (r ∷ rows) rest = omega (arith, total_count-append rows rest)

  total_skipped-append :
      (rows rest : Table) → total_skipped rows + total_skipped rest ≡ total_skipped (rows ++ rest)
  total_skipped-append [] rest = omega arith
  total_skipped-append (r ∷ rows) rest = omega (arith, total_skipped-append rows rest)

  rotated-append :
      (rows rest : Table) → map rotated rows ++ map rotated rest ≡ map rotated (rows ++ rest)
  rotated-append [] rest = refl
  rotated-append (r ∷ rows) rest = ap (λ t. rotated r ∷ t) (rotated-append rows rest)

  abbrev pass_of : ℕ → ℕ → Table → Pass Table
  pass_of c k t = record { count = c; skipped = k; table = t }

  Pass-ext :
      (c c' k k' : ℕ) (t t' : Table) → c ≡ c' → k ≡ k' → t ≡ t' → pass_of c k t ≡ pass_of c' k' t'
  Pass-ext c c' k k' t t' hc hk ht = rw (hc, hk, ht) refl

  by_row-append :
      (rows rest : Table)
      → and_then E
          (under (map rotated rows) (record (by_row rows) { table = rest }))
          (under (map rotated rows) (by_row rest))
        ≡ by_row (rows ++ rest)
  by_row-append rows rest =
      Pass-ext _ _ _ _ _ _ (total_count-append rows rest) (total_skipped-append rows rest)
        (rotated-append rows rest)

  page-by_row :
      (fuel : ℕ) (r : Row) (rows rest : Table)
      → IsSorted (r ∷ rows ++ rest)
      → paginated_reencrypt E fuel dry_run is_jsonb (some (last_pk r rows)) rest
        ≡ some (by_row rest)
      → page_step E dry_run is_jsonb
          (r ∷ rows)
          (λ pk. paginated_reencrypt E fuel dry_run is_jsonb (some pk))
          (r ∷ rows ++ rest)
        ≡ some (by_row (r ∷ rows ++ rest))
  page-by_row fuel r rows rest sorted h =
      let page = (IsSorted-append (r ∷ rows) rest sorted).0 in
      rw
        (
          rows-by_row (r ∷ rows) rest page,
          loops-under fuel (last_pk r rows) (map rotated (r ∷ rows)) rest (rotated-le r rows page),
          h,
        )
        (ap some (by_row-append (r ∷ rows) rest))

  -- With more fuel than there are rows the loop ends, and it has done to each row of a table in the
  -- order of the primary key, once, what encrypting that row by itself does: the count, the number
  -- of skipped values and the table are those of a single pass.
  pub paginated_reencrypt-by_row :
      (fuel : ℕ) (last : Option ℕ) (t : Table)
      → length t < fuel
      → IsSorted t
      → All (λ r. is_after last r.pk ≡ true) t
      → paginated_reencrypt E fuel dry_run is_jsonb last t ≡ some (by_row t)
  unfolding paginated_reencrypt select_page keep
  paginated_reencrypt-by_row zero last t h sorted above = ground arith
  paginated_reencrypt-by_row (suc fuel) last [] h sorted above = refl
  paginated_reencrypt-by_row (suc fuel) last (r ∷ t) h sorted above =
      let split = take-append-drop 1999 t in
      let sorted' : IsSorted (r ∷ take 1999 t ++ drop 1999 t) = rw split sorted in
      let below = below_page r (take 1999 t) (drop 1999 t) sorted' in
      let ih =
        paginated_reencrypt-by_row fuel (some (last_pk r (take 1999 t))) (drop 1999 t)
          (omega (arith, h, length-drop 1999 t))
          (IsSorted-append (r ∷ take 1999 t) (drop 1999 t) sorted').1
          (All-mono _ _ (λ s lt. lt→ltb _ s.pk lt) (drop 1999 t) below) in
      let step = page-by_row fuel r (take 1999 t) (drop 1999 t) sorted' ih in
      rw (keep_after last (r ∷ t) above) (rw split at step)

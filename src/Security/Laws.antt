-- ===== src/Security/Laws.antt =====
-- What stands in the audit table.
use quantumbilling.Common.{
  Bool, true, false, if◌then◌else◌, ℕ, ◌-◌, ◌≤◌, ◌≡◌, ◌⊎◌, ◌∙◌, refl, ap, sym, List, [], ◌∷◌, ◌++◌,
  map, append-nil, append_assoc, Text, text, some, Bool-cases, inl, inr, length, length-append,
  length-take, take, leb, leb_iff, arith,
}
use quantumbilling.Security.{
  Strings, Violation, AuditRow, AuditTable, ready, truncate, max_detail, new_row, log_violation,
  extract_ip, nullable,
}

-- What a text is cut to.
pub record Truncated (s t : Text) (n : ℕ) : Type 0 where
  pub bounded : length t ≤ n
  pub shown : (t ≡ s) ⊎ ((t ≡ take (n - 15) s ++ text "... (truncated)") × (length t ≡ n))

truncate-Truncated :
    (s : Text) (n : ℕ) → 15 ≤ n → (t : Text) × (truncate s n ≡ some t) × Truncated s t n
unfolding truncate text
truncate-Truncated s n big = elim (Bool-cases (leb (length s) n)) [
  | inl fits ↦ (
    s,
    rw (fits, truncate) refl,
    record { bounded = (leb_iff (length s) n).0 fits; shown = inl refl },
  )
  | inr long ↦
      let kept = take (n - 15) s ++ text "... (truncated)" in
      let size : length kept ≡ n = ground (
        arith,
        length-append (take (n - 15) s) (text "... (truncated)"),
        length-take (n - 15) s,
        leb_iff (length s) n,
      ) in
      (
        kept,
        ground (arith, long, big),
        record { bounded = omega (arith, size); shown = inr (refl, size) },
      )
]

module _ (lib : Strings) where
  -- The row of a violation: its address, its type and its key's prefix, NULL for an organization that
  -- is not known, and its detail, cut to 1000 bytes.
  pub record IsRowOf (v : Violation) (row : AuditRow) : Type 0 where
    pub org : row.org_id ≡ nullable v.org_id
    pub type : row.violation_type ≡ v.violation_type
    pub ip : row.ip_address ≡ extract_ip lib v.client
    pub prefix : row.triggered_by ≡ v.key_prefix
    pub details : Truncated v.detail row.details max_detail

  -- One row for each violation, in their order.
  abbrev pub AreRowsOf : List Violation → List AuditRow → Type 0
  AreRowsOf [] [] = Unit
  AreRowsOf [] (row ∷ rows) = ⊥
  AreRowsOf (v ∷ vs) [] = ⊥
  AreRowsOf (v ∷ vs) (row ∷ rows) = IsRowOf v row × AreRowsOf vs rows

  -- The violations that are logged one after the other, with the clock at each.
  unfoldable pub log_all : List (ℕ × Violation) → AuditTable → AuditTable
  log_all [] table = table
  log_all ((now, v) ∷ vs) table = log_all vs (log_violation lib now v table)

  -- The rows that a table takes.
  abbrev pub taken : (AuditRow → Bool) → List AuditRow → List AuditRow
  taken takes [] = []
  taken takes (row ∷ rows) = if takes row then row ∷ taken takes rows else taken takes rows

  append-if :
      (b : Bool) (rows : List AuditRow) (row : AuditRow) (rest : List AuditRow)
      → (if b then rows ++ row ∷ [] else rows) ++ rest ≡ rows ++ (if b then row ∷ rest else rest)
  append-if true rows row rest = append_assoc rows (row ∷ []) rest
  append-if false rows row rest = refl

  log_violation-row :
      (now : ℕ) (v : Violation) (takes : AuditRow → Bool) (rows : List AuditRow)
      → (row : AuditRow) × (log_violation lib now v (ready takes rows)
          ≡ ready takes (if takes row then rows ++ row ∷ [] else rows))
        × IsRowOf v row
  unfolding log_violation
  log_violation-row now v takes rows =
      let (t, cut, about) = truncate-Truncated v.detail max_detail (ground arith) in
      (
        new_row lib now v t,
        rw (cut, log_violation) refl,
        record { org = refl; type = refl; ip = refl; prefix = refl; details = about },
      )

  -- For any sequence of violations, of whatever types, lengths and clients, there is one row for each
  -- of them, in their order, with a detail of at most 1000 bytes, the text itself or its first 985
  -- bytes with the mark; a table that Postgres serves has afterwards, behind the rows that are there,
  -- exactly those of these rows that its columns take, in the same order. The others are lost.
  pub log_all-AreRowsOf :
      (vs : List (ℕ × Violation)) (takes : AuditRow → Bool) (rows : List AuditRow)
      → (new : List AuditRow) × AreRowsOf (map (λ v. v.1) vs) new
        × (log_all vs (ready takes rows) ≡ ready takes (rows ++ taken takes new))
  unfolding log_all
  log_all-AreRowsOf [] takes rows = ([], tt, ap (ready takes) (sym (append-nil rows)))
  log_all-AreRowsOf ((now, v) ∷ vs) takes rows =
      let (row, q, about) = log_violation-row now v takes rows in
      let (rest, all, p) =
        log_all-AreRowsOf vs takes (if takes row then rows ++ row ∷ [] else rows) in
      (
        row ∷ rest,
        (about, all),
        ap (λ t. log_all vs t) q
            ∙ p
            ∙ ap (ready takes) (append-if (takes row) rows row (taken takes rest)),
      )

-- ===== src/Storage/KeratinLog/Scan.antt =====
-- What the Keratin log relies on in `keratin_log`, and the records that its scanning loop collects.
use mathlib.Core.List.{append_assoc, append-nil}
use mathlib.Core.Path.{subst}
use ganglion.Prelude.{
  ℕ, zero, suc, ◌+◌, ◌≤◌, ◌<◌, some, none, true, List, [], ◌∷◌, ◌++◌, ◌≡◌, refl, sym, ap, ◌∙◌, ◌⊎◌,
  inl, inr, arith, leb, length, length-append, u64_max, last?, filter, All, All-append, All-imp, ok,
  err, Option-cases,
}
use ganglion.Core.Model.{Str}
use ganglion.Storage.FileLog.{io}
use ganglion.Storage.KeratinLog.{OwnedRecord, owner, follower, frozen, Keratin, scan}

-- The behaviour of `keratin_log`, for the records that are stored in a state: a scan that succeeds
-- gives a first part of the records from its offset on, and nothing only if there are none; an
-- append that succeeds stores the payload after the others; a reset that succeeds stores nothing;
-- a change of role changes the role alone.
pub record Stores {K : Type 0} (keratin : Keratin K) (records : K → List OwnedRecord) : Type 0 where
  pub records-scan_from :
      (k : K) (cursor : ℕ) (batch : List OwnedRecord)
      → keratin.scan_from k cursor 256 ≡ some batch
      → (rest : List OwnedRecord) × ((filter (λ r. leb cursor r.offset) (records k) ≡ batch ++ rest)
          × (batch ≡ [] → rest ≡ []))
  pub records-append :
      (k after : K) (payload : Str)
      → keratin.append k payload ≡ (true, after)
      → (offset : ℕ) × (records after
          ≡ records k ++ record { offset = offset; payload = payload } ∷ [])
  pub records-reset :
      (k after : K) (next_offset : ℕ)
      → keratin.destructive_reset_to_checkpoint k next_offset ≡ (true, after)
      → records after ≡ []
  pub records-roles :
      (k : K)
      → (records (keratin.become_owner k) ≡ records k)
        × ((records (keratin.become_follower k) ≡ records k)
            × (records (keratin.freeze k) ≡ records k))
  pub role-roles :
      (k : K)
      → (keratin.role (keratin.become_owner k) ≡ owner)
        × ((keratin.role (keratin.become_follower k) ≡ follower)
            × (keratin.role (keratin.freeze k) ≡ frozen))

abbrev Before : ℕ → OwnedRecord → Type 0
Before cursor r = r.offset < cursor

abbrev From : ℕ → OwnedRecord → Type 0
From cursor r = cursor ≤ r.offset

-- The offsets go up and are below the largest u64.
abbrev pub Ascending : List OwnedRecord → Type 0
Ascending [] = Unit
Ascending (r ∷ rs) = (r.offset < u64_max) × (All (From (r.offset + 1)) rs × Ascending rs)

filter-From :
    (cursor : ℕ) (before rest : List OwnedRecord)
    → All (Before cursor) before
    → All (From cursor) rest
    → filter (λ r. leb cursor r.offset) (before ++ rest) ≡ rest
filter-From cursor [] [] b f = refl
filter-From cursor [] (r ∷ rest) b f = ground (arith, filter-From cursor [] rest tt f.1)
filter-From cursor (r ∷ before) rest b f = ground (arith, filter-From cursor before rest b.1 f)

All-last? :
    (P : OwnedRecord → Type 0) (part rest : List OwnedRecord) (last : OwnedRecord)
    → All P (part ++ rest)
    → last? part ≡ some last
    → P last
All-last? P [] rest last a h = cc
All-last? P (r ∷ []) rest last a h = subst P (cc) a.0
All-last? P (r ∷ s ∷ part) rest last a h = All-last? P (s ∷ part) rest last a.1 h

-- Where a part of ascending records ends with a record, that record's offset divides the rest from
-- the part.
Ascending-last? :
    (part rest : List OwnedRecord) (last : OwnedRecord)
    → Ascending (part ++ rest)
    → last? part ≡ some last
    → (last.offset < u64_max)
      × (All (Before (last.offset + 1)) part × All (From (last.offset + 1)) rest)
Ascending-last? [] rest last a h = cc
Ascending-last? (r ∷ []) rest last a h =
    let e : r ≡ last = cc in
    subst
      (λ (l : OwnedRecord).
        (l.offset < u64_max)
        × (All (Before (l.offset + 1)) (r ∷ []) × All (From (l.offset + 1)) rest))
      e (a.0, ((omega arith, tt), a.1.0))
Ascending-last? (r ∷ s ∷ part) rest last a h =
    let (bound, (before, from)) = Ascending-last? (s ∷ part) rest last a.1.1 h in
    let below : r.offset < last.offset + 1 =
      omega (arith, All-last? (From (r.offset + 1)) (s ∷ part) rest last a.1.0 h) in
    (bound, ((below, before), from))

Ascending-append_right : (xs ys : List OwnedRecord) → Ascending (xs ++ ys) → Ascending ys
Ascending-append_right [] ys a = a
Ascending-append_right (x ∷ xs) ys a = Ascending-append_right xs ys a.1.1

All-From_zero : (rs : List OwnedRecord) → All (From 0) rs
All-From_zero [] = tt
All-From_zero (r ∷ rs) = (omega arith, All-From_zero rs)

last?-none : (rs : List OwnedRecord) → last? rs ≡ none → rs ≡ []
last?-none [] h = refl
last?-none (r ∷ []) h = cc
last?-none (r ∷ s ∷ rs) h = absurd (cc (last?-none (s ∷ rs) h))

shorter :
    (batch left rest : List OwnedRecord) (fuel : ℕ) (last : OwnedRecord)
    → rest ≡ batch ++ left
    → last? batch ≡ some last
    → length rest < suc fuel
    → length left < fuel
shorter [] left rest fuel last e h l = cc
shorter (r ∷ batch) left rest fuel last e h l = omega (arith, ap length e, length-append batch left)

module _ {K : Type 0} (keratin : Keratin K) (records : K → List OwnedRecord)
    (stores : Stores keratin records) (k : K) (ascending : Ascending (records k)) where
  scan_rest :
      (fuel cursor : ℕ) (before rest : List OwnedRecord)
      → records k ≡ before ++ rest
      → All (Before cursor) before
      → All (From cursor) rest
      → length rest < fuel
      → (scan keratin k fuel cursor before ≡ some (err io))
        ⊎ (scan keratin k fuel cursor before ≡ some (ok (records k)))
  unfolding scan
  scan_rest zero cursor before rest e b f h = absurd (omega arith)
  scan_rest (suc fuel) cursor before rest e b f h =
      elim (Option-cases (keratin.scan_from k cursor 256)) [
        | inl failed ↦ inl (ground arith)
        | inr (batch, scanned) ↦
            let (left, (split, none_left)) = stores.records-scan_from k cursor batch scanned in
            let parts : rest ≡ batch ++ left =
              sym (filter-From cursor before rest b f)
              ∙ ap (filter (λ r. leb cursor r.offset)) (sym e)
              ∙ split in
            elim (Option-cases (last? batch)) [
              | inl empty ↦
                  let nothing = last?-none batch empty in
                  let all : before ≡ records k =
                    sym (append-nil before)
                    ∙ ap (λ (rs : List OwnedRecord). before ++ rs)
                        (sym (
                          parts
                          ∙ ap (λ (rs : List OwnedRecord). rs ++ left) nothing
                          ∙ none_left nothing))
                    ∙ sym e in
                  inr (ground arith)
              | inr (last, ends) ↦
                  let whole : records k ≡ (before ++ batch) ++ left =
                    e
                    ∙ ap (λ (rs : List OwnedRecord). before ++ rs) parts
                    ∙ sym (append_assoc before batch left) in
                  let (bound, (below, above)) =
                    Ascending-last? batch left last
                      (subst Ascending parts
                        (Ascending-append_right before rest (subst Ascending e ascending)))
                      ends in
                  let passed =
                    All-last? (From cursor) batch left last (subst (All (From cursor)) parts f)
                      ends in
                  let earlier =
                    All-imp {P = Before cursor} {Q = Before (last.offset + 1)}
                      (λ r sooner. omega arith) before b in
                  let step : scan keratin k (suc fuel) cursor before
                      ≡ scan keratin k fuel (last.offset + 1) (before ++ batch) =
                    ground arith in
                  let next =
                    scan_rest fuel (last.offset + 1) (before ++ batch) left whole
                      (All-append (Before (last.offset + 1)) before batch earlier below) above
                      (shorter batch left rest fuel last parts ends h) in
                  elim next [ inl failed ↦ inl (step ∙ failed) | inr done ↦ inr (step ∙ done) ]
            ]
      ]

  -- The scanning loop returns: with fuel above the number of records that are stored it gives them
  -- all, unless a scan fails. Their offsets go up and are below the largest u64.
  pub scan-returns :
      (fuel : ℕ)
      → length (records k) < fuel
      → (scan keratin k fuel 0 [] ≡ some (err io))
        ⊎ (scan keratin k fuel 0 [] ≡ some (ok (records k)))
  scan-returns fuel h = scan_rest fuel 0 [] (records k) refl tt (All-From_zero (records k)) h

-- ===== src/Validation/Scan.antt =====
-- What the loop of the downgrade computes: whether a context blocks, and that a block is recorded.
use jindiao.Prelude.{
  ◌≡◌, refl, Bool, true, ◌&&◌, ◌||◌, List, [], ◌∷◌, ◌++◌, String, any, keep, nonempty, distinct,
  nonempty-append, nonempty-distinct, nonempty-sorted, gather, arith,
}
use jindiao.Contracts.Snapshot.{SubmoduleContext}
use jindiao.Validation.{
  Progress, scan, scan_context, is_unavailable, is_uncited, snapshot_conflicts,
}

abbrev pub blocks : Bool → List String → SubmoduleContext → Bool
blocks require_all ids c = is_unavailable c.availability || (require_all && is_uncited ids c)

-- the loop blocks when it has blocked before or a context blocks
pub blocked-scan :
    (require_all : Bool) (ids : List String) (p : Progress) (cs : List SubmoduleContext)
    → (scan require_all ids p cs).blocked ≡ (p.blocked || any (blocks require_all ids) cs)
unfolding scan
blocked-scan require_all ids p [] = ground arith
blocked-scan require_all ids p (c ∷ cs) =
    ground (arith, blocked-scan require_all ids (scan_context require_all ids p c) cs)

pub any-blocks :
    (require_all : Bool) (ids : List String) (cs : List SubmoduleContext)
    → any (blocks require_all ids) cs ≡ (
        any (λ c. is_unavailable c.availability) cs
        || (require_all && nonempty (keep (is_uncited ids) cs)))
any-blocks require_all ids [] = ground arith
any-blocks require_all ids (c ∷ cs) = ground (arith, any-blocks require_all ids cs)

-- A progress that has blocked has recorded why.
abbrev pub IsRecorded : Progress → Type 0
IsRecorded p = p.blocked ≡ true → nonempty p.missing_evidence ≡ true

pub nonempty-append_one : (xs : List String) (x : String) → nonempty (xs ++ x ∷ []) ≡ true
nonempty-append_one [] x = refl
nonempty-append_one (y ∷ xs) x = refl

scan_context-IsRecorded :
    (require_all : Bool) (ids : List String) (p : Progress) (c : SubmoduleContext)
    → IsRecorded p
    → IsRecorded (scan_context require_all ids p c)
scan_context-IsRecorded require_all ids p c h = grind (arith, nonempty-append_one)

pub scan-IsRecorded :
    (require_all : Bool) (ids : List String) (p : Progress) (cs : List SubmoduleContext)
    → IsRecorded p
    → IsRecorded (scan require_all ids p cs)
unfolding scan
scan-IsRecorded require_all ids p [] h = h
scan-IsRecorded require_all ids p (c ∷ cs) h =
    scan-IsRecorded require_all ids (scan_context require_all ids p c) cs
      (scan_context-IsRecorded require_all ids p c h)

pub nonempty-conflicts :
    (own : List String) (cs : List SubmoduleContext)
    → nonempty (distinct (own ++ snapshot_conflicts cs))
      ≡ (nonempty own || nonempty (gather (λ c. c.conflict_evidence_ids) cs))
nonempty-conflicts own cs =
    rw (nonempty-distinct, nonempty-append, nonempty-sorted, nonempty-distinct)

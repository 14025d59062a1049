-- ===== src/Dns/Questions.antt =====
-- The name in a question of DnsWriteQuestionToBuffer, as its labels.
use camera_udp.Base.{
  ℕ, suc, ◌+◌, ◌-◌, ◌%◌, ◌^◌, ◌≤◌, ◌<◌, ◌≡◌, ◌≢◌, refl, sym, ap, ap₂, ◌∙◌, subst, false, List, [],
  ◌∷◌, ◌++◌, length, length-append, some, arith, ltb, ◌==◌, Memory, ==_of_ne,
}
use mathlib.Core.List.{append_assoc, append-nil}
use camera_udp.Listing.Ranges.{Holds, Holds-append}
use camera_udp.Dns.{prepend_label, write_labels}
use camera_udp.Dns.Names.{NameAt, ends, label}

abbrev pub NoDot : List ℕ → Type 0
NoDot [] = Unit {0}
NoDot (c ∷ cs) = (c ≢ 46) × NoDot cs

-- Labels of 1 to 63 characters other than the dot.
abbrev pub AreLabels : List (List ℕ) → Type 0
AreLabels [] = Unit {0}
AreLabels (l ∷ ls) = (0 < length l) × (length l ≤ 63) × NoDot l × AreLabels ls

abbrev pub labels_size : List (List ℕ) → ℕ
labels_size [] = 0
labels_size (l ∷ ls) = length l + 1 + labels_size ls

abbrev pub dotted : List (List ℕ) → List ℕ
dotted [] = []
dotted (l ∷ []) = l
dotted (l ∷ next ∷ ls) = l ++ 46 ∷ dotted (next ∷ ls)

abbrev pub labels_bytes : List (List ℕ) → List ℕ
labels_bytes [] = []
labels_bytes (l ∷ ls) = (length l ∷ l) ++ labels_bytes ls

write_labels-chars :
    (cb : ℕ) (done l rest : List ℕ)
    → NoDot l
    → length done + length l ≤ 63
    → length l < cb
    → cb < 2 ^ 32
    → write_labels cb done (l ++ rest) ≡ write_labels (cb - length l) (done ++ l) rest
unfolding write_labels
write_labels-chars cb done [] rest n few room lim =
    ap₂ (λ k xs. write_labels k xs rest) (omega arith) (sym (append-nil done))
write_labels-chars cb done (c ∷ l) rest (ne, n) few room lim =
    let left : (cb + 2 ^ 32 - 1) % 2 ^ 32 ≡ cb - 1 = omega arith in
    let short : ltb 63 (length done + 1) ≡ false = ground arith in
    let more : (cb - 1 == 0) ≡ false = ground arith in
    let grown = length-append done (c ∷ []) in
    rw (==_of_ne ne, left, short, more)
      (write_labels-chars (cb - 1) (done ++ c ∷ []) l rest n (omega (arith, grown)) (omega arith)
          (omega arith)
        ∙ ap₂ (λ k xs. write_labels k xs rest) (omega arith) (append_assoc done (c ∷ []) l))

pub write_labels-dotted :
    (cb : ℕ) (l : List ℕ) (ls : List (List ℕ))
    → AreLabels (l ∷ ls)
    → labels_size (l ∷ ls) ≤ cb
    → cb < 2 ^ 32
    → write_labels cb [] (dotted (l ∷ ls)) ≡ some (labels_bytes (l ∷ ls))
unfolding write_labels prepend_label
write_labels-dotted cb l [] (pos, few, n, _) room lim =
    let e : l ++ [] ≡ l = append-nil l in
    subst (λ x. write_labels cb [] x ≡ some ((length l ∷ l) ++ [])) e
      (write_labels-chars cb [] l [] n (omega arith) (omega arith) lim
        ∙ ap some (sym (append-nil (length l ∷ l))))
write_labels-dotted cb l (next ∷ ls) (pos, few, n, h) room lim =
    let left : (cb - length l + 2 ^ 32 - 1) % 2 ^ 32 ≡ cb - length l - 1 = omega arith in
    let rest = write_labels-dotted (cb - length l - 1) next ls h (omega arith) (omega arith) in
    write_labels-chars cb [] l (46 ∷ dotted (next ∷ ls)) n (omega arith) (omega arith) lim
    ∙ rw (left, rest) refl

pub NameAt-labels :
    (m : Memory) (base size at : ℕ) (ls : List (List ℕ))
    → AreLabels ls
    → Holds m at (labels_bytes ls)
    → m (at + labels_size ls) ≡ 0
    → NameAt m base size (suc (length ls)) at (at + labels_size ls + 1)
NameAt-labels m base size at [] a h z =
    let e : at + 0 ≡ at = omega arith in rw e (ends 0 at (subst (λ p. m p ≡ 0) e z))
NameAt-labels m base size at (l ∷ ls) (pos, few, n, a) h z =
    let c = h.0 in
    let back = (Holds-append m at (length l ∷ l) (labels_bytes ls) h).1 in
    let e : at + suc (length l) + labels_size ls ≡ at + labels_size (l ∷ ls) = omega arith in
    let rest =
      NameAt-labels m base size (at + suc (length l)) ls a back (subst (λ p. m p ≡ 0) (sym e) z) in
    let there : at + suc (length l) ≡ at + 1 + m at = omega (arith, c) in
    label (suc (length ls)) at (at + labels_size (l ∷ ls) + 1) (omega (arith, c)) (omega (arith, c))
      (subst (λ p. NameAt m base size (suc (length ls)) p (at + labels_size (l ∷ ls) + 1)) there
        (subst (λ p. NameAt m base size (suc (length ls)) (at + suc (length l)) (p + 1)) e rest))

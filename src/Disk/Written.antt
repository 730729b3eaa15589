-- ===== src/Disk/Written.antt =====
-- About diskwrite of build/mkbootdisk.c: every byte is written once and in order.
use memory_management.Base.{
  ℕ, zero, suc, ◌+◌, ◌≤◌, ◌<◌, ◌≡◌, ◌≢◌, inl, inr, ◌∙◌, refl, ap, sym, true, false, List, [], ◌∷◌,
  ◌++◌, length, length-append, take, drop, take-append-drop, length-drop, ◌==◌, Bool-cases, arith,
}
use mathlib.Core.List.{append_assoc, append-nil}
use memory_management.Base.Run.{
  fault, Returns, returns, Returns-weaken, Settles, faulted, Returns-Settles,
}
use memory_management.Disk.Writer.{
  WriteResult, interrupted, wrote, Host, Writer, is_full, advance, write_loop, diskwrite,
}

-- A result that is no error: an interrupt, which costs one of the `c` that are left, or a write of
-- some bytes.
pub data Fair (r : WriteResult) (c c' : ℕ) : Type 0 where
  pause : r ≡ interrupted → c' < c → Fair r c c'
  progress : (n : ℕ) → r ≡ wrote n → n ≢ 0 → c' ≤ c → Fair r c c'

-- A host whose writes do not fail, with at most `patience` interrupts.
pub record Steady (host : Host) : Type 0 where
  pub credit : ℕ → ℕ
  pub within : (k : ℕ) → credit k ≤ host.patience
  pub fair : (k : ℕ) → Fair (host.write k) (credit k) (credit (k + 1))

pub record Appended (bytes : List ℕ) (w w' : Writer) : Type 0 where
  pub out : w'.out ≡ w.out ++ bytes
  pub curoff : w'.curoff ≡ w.curoff + length bytes
  pub maxoff : w'.maxoff ≡ w.maxoff
  pub base : w'.base ≡ w.base

pub Appended-eq : {xs ys : List ℕ} {w w' : Writer} → xs ≡ ys → Appended xs w w' → Appended ys w w'
Appended-eq same a = rw same at a

pub Appended-nil : (w : Writer) → Appended [] w w
Appended-nil w = record {
  out = sym (append-nil w.out);
  curoff = omega arith;
  maxoff = refl;
  base = refl;
}

pub Appended-append :
    (xs ys : List ℕ) {w w1 w2 : Writer}
    → Appended xs w w1
    → Appended ys w1 w2
    → Appended (xs ++ ys) w w2
Appended-append xs ys {w} a b = record {
  out = b.out ∙ ap (λ front. front ++ ys) a.out ∙ append_assoc w.out xs ys;
  curoff = omega (arith, a.curoff, b.curoff, length-append xs ys);
  maxoff = b.maxoff ∙ a.maxoff;
  base = b.base ∙ a.base;
}

Appended-advance :
    (n : ℕ) (bytes : List ℕ) (w : Writer) → Appended (take n bytes) w (advance n bytes w)
Appended-advance n bytes w = record { out = refl; curoff = refl; maxoff = refl; base = refl }

module _ (host : Host) (steady : Steady host) where
  write_loop-Appended :
      (fuel : ℕ) (bytes : List ℕ) (w : Writer)
      → length bytes + steady.credit w.calls ≤ fuel
      → Returns (Appended bytes w) (write_loop host fuel bytes w)
  unfolding write_loop
  write_loop-Appended zero [] w h = returns (Appended-nil w)
  write_loop-Appended zero (c ∷ cs) w h = absurd (omega arith)
  write_loop-Appended (suc fuel) [] w h = returns (Appended-nil w)
  write_loop-Appended (suc fuel) (c ∷ cs) w h = elim (steady.fair w.calls) [
    | pause r less ↦
        rw (r, write_loop)
          (Returns-weaken
            (write_loop-Appended fuel (c ∷ cs) (record w { calls = w.calls + 1 }) (omega arith))
            λ w' a. record { out = a.out; curoff = a.curoff; maxoff = a.maxoff; base = a.base })
    | progress n r pos le ↦
        let some : (n == 0) ≡ false = ground arith in
        rw (r, write_loop, some)
          (Returns-weaken
            (write_loop-Appended fuel (drop n (c ∷ cs)) (advance n (c ∷ cs) w)
              (omega (arith, length-drop n (c ∷ cs))))
            λ w' a. Appended-eq (take-append-drop n (c ∷ cs)) (
              Appended-append (take n (c ∷ cs)) (drop n (c ∷ cs)) (Appended-advance n (c ∷ cs) w)
                a))
  ]

  -- On a host whose writes do not fail, with partial writes and as many interrupts as the model
  -- waits for, `diskwrite` ends the program where the partition is too small for the bytes; else it
  -- appends all the bytes to the output, in order, and counts them.
  pub diskwrite-Appended :
      (bytes : List ℕ) (w : Writer)
      → (is_full w (length bytes) ≡ true → diskwrite host bytes w ≡ fault)
        × (is_full w (length bytes) ≡ false → Returns (Appended bytes w) (diskwrite host bytes w))
  unfolding diskwrite
  diskwrite-Appended bytes w =
      let enough : length bytes + steady.credit w.calls ≤ length bytes + host.patience =
        omega (arith, steady.within w.calls) in
      (
        λ full. rw full refl,
        λ room. rw room (write_loop-Appended (length bytes + host.patience) bytes w enough),
      )

  pub diskwrite-Settles :
      (bytes : List ℕ) (w : Writer) → Settles (Appended bytes w) (diskwrite host bytes w)
  diskwrite-Settles bytes w = elim (Bool-cases (is_full w (length bytes))) [
    | inl full ↦ let refused = (diskwrite-Appended bytes w).0 full in rw refused faulted
    | inr room ↦ Returns-Settles ((diskwrite-Appended bytes w).1 room)
  ]

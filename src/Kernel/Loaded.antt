-- ===== src/Kernel/Loaded.antt =====
-- About the bytes that the program loader of kernel/k-loader.c puts in a process's memory.
use mathlib.Core.Path.{subst}
use memory_management.Base.{
  ℕ, zero, suc, ◌+◌, ◌-◌, ◌≤◌, ◌<◌, ◌≡◌, ◌≢◌, refl, ◌∙◌, ap, sym, ltb, ltb→lt, if-cases,
  if◌then◌else◌, update, sub64, ℕ_discrete, ◌^◌, Option, none, some, arith,
}
use memory_management.Base.Run.{
  Run, ok, fault, Returns, returns, Returns-bind, Returns-weaken, ◌>>=◌,
}
use memory_management.Clib.Memory.{Memory}
use memory_management.Kernel.PageTable.{Entries}
use memory_management.Kernel.Loader.{write_address, store_byte, copy_in, clear_in, fill}

update-same : (m : Memory) (p v : ℕ) → update m p v p ≡ v
update-same m p v = ground arith

update-other : (m : Memory) (p v q : ℕ) → q ≢ p → update m p v q ≡ m q
update-other m p v q other = ground arith

module _ (pagetable : ℕ) (mem : Entries) where
  -- The physical address that a write to a virtual one goes to.
  abbrev phys : ℕ → ℕ
  phys va = elim (write_address 4 0 pagetable va mem) [ none ↦ 0 | some pa ↦ pa ]

  -- The addresses from `lo` up to `hi` can be written, and no two are the same memory.
  pub record Reaches (lo hi : ℕ) : Type 0 where
    pub open_page : (a : ℕ) → lo ≤ a → a < hi → write_address 4 0 pagetable a mem ≡ some (phys a)
    pub apart : (a b : ℕ) → lo ≤ a → a < hi → lo ≤ b → b < hi → phys a ≡ phys b → a ≡ b

  -- Bytes that have `text` at the addresses from `lo` up to `hi`, and are else as `bytes`.
  pub record Filled (lo hi : ℕ) (text : ℕ → ℕ) (bytes bytes' : Memory) : Type 0 where
    pub written : (a : ℕ) → lo ≤ a → a < hi → bytes' (phys a) ≡ text a
    pub kept : (q : ℕ) → ((a : ℕ) → lo ≤ a → a < hi → q ≢ phys a) → bytes' q ≡ bytes q

  Filled-eq :
      {lo hi hi' : ℕ} {text : ℕ → ℕ} {bytes bytes' : Memory}
      → hi ≡ hi'
      → Filled lo hi text bytes bytes'
      → Filled lo hi' text bytes bytes'
  Filled-eq {lo} {text} {bytes} {bytes'} same f = subst (λ h. Filled lo h text bytes bytes') same f

  -- Two parts, one behind the other.
  Filled-join :
      (lo mid hi : ℕ) (text : ℕ → ℕ) (bytes bytes1 bytes2 : Memory)
      → lo ≤ mid
      → mid ≤ hi
      → Reaches lo hi
      → Filled lo mid text bytes bytes1
      → Filled mid hi (λ a. 0) bytes1 bytes2
      → Filled lo hi (λ a. if ltb a mid then text a else 0) bytes bytes2
  Filled-join lo mid hi text bytes bytes1 bytes2 low high r f g = record {
    written = λ a above below.
        if-cases (λ x. bytes2 (phys a) ≡ x) (ltb a mid)
          (λ before.
            let here : a < mid = ltb→lt a mid before in
            g.kept (phys a) (λ b lo' hi' same.
              omega (arith, r.apart a b above (omega arith) (omega arith) hi' same))
            ∙ f.written a above here)
          λ behind. g.written a (ground arith) below;
    kept = λ q other.
        g.kept q (λ a lo' hi'. other a (omega arith) hi')
        ∙ f.kept q (λ a lo' hi'. other a lo' (omega arith));
  }

  stored : (byte : ℕ) → Memory → Option ℕ → Run Memory
  stored byte bytes none = fault
  stored byte bytes (some pa) = ok (update bytes pa byte)

  store_byte-ok :
      (va byte : ℕ) (bytes : Memory)
      → write_address 4 0 pagetable va mem ≡ some (phys va)
      → store_byte pagetable va byte mem bytes ≡ ok (update bytes (phys va) byte)
  unfolding store_byte stored
  store_byte-ok va byte bytes h = ap (stored byte bytes) h

  copy_in-Filled :
      (left va src hi : ℕ) (file bytes : Memory)
      → va + left ≤ hi
      → Reaches va hi
      → Returns
          (Filled va (va + left) (λ a. file (src + (a - va))) bytes)
          (copy_in left pagetable va src file mem bytes)
  unfolding copy_in
  copy_in-Filled zero va src hi file bytes fits r =
      returns (record { written = λ a lo high. absurd (omega arith); kept = λ q other. refl })
  copy_in-Filled (suc left) va src hi file bytes fits r =
      let bytes1 = update bytes (phys va) (file src) in
      let r' : Reaches (va + 1) hi = record {
        open_page = λ a lo high. r.open_page a (omega arith) high;
        apart = λ a b la ha lb hb. r.apart a b (omega arith) ha (omega arith) hb;
      } in
      rw (store_byte-ok va (file src) bytes (r.open_page va (omega arith) (omega arith))) (
        Returns-weaken (copy_in-Filled left (va + 1) (src + 1) hi file bytes1 (omega arith) r')
          λ bytes' f. record {
            written = λ a lo high. elim (ℕ_discrete a va) [
              | yes first ↦
                  let at : src + (a - va) ≡ src = omega arith in
                  ap (λ x. bytes' (phys x)) first
                  ∙ f.kept (phys va) (λ b above below same. omega (
                    arith,
                    r.apart va b (omega arith) (omega arith) (omega arith) (omega arith) same,
                  ))
                  ∙ update-same bytes (phys va) (file src)
                  ∙ ap file (sym at)
              | no later ↦
                  let at : src + 1 + (a - (va + 1)) ≡ src + (a - va) = omega arith in
                  f.written a (omega arith) (omega arith) ∙ ap file at
            ];
            kept = λ q other.
                f.kept q (λ a lo high. other a (omega arith) (omega arith))
                ∙ update-other bytes (phys va) (file src) q (other va (omega arith) (omega arith));
          })

  -- `memset` is a copy of zeros.
  clear_in-copy_in :
      (left va : ℕ) (src : ℕ) (bytes : Memory)
      → clear_in left pagetable va mem bytes ≡ copy_in left pagetable va src (λ q. 0) mem bytes
  unfolding clear_in copy_in
  clear_in-copy_in zero va src bytes = refl
  clear_in-copy_in (suc left) va src bytes =
      ap (λ k. store_byte pagetable va 0 mem bytes >>= k)
        (λ i bytes'. clear_in-copy_in left (va + 1) (src + 1) bytes' i)

  -- Where the addresses from `va` up to `end_mem` can be written, by the present and writable entries
  -- of every level, and no two are the same memory,
  -- the copy of a segment returns: the address `va + i` has the byte `src + i` of the file, up to
  -- `end_file`, and the addresses from there up to `end_mem` have zeros; no other byte changes.
  pub fill-Filled :
      (va end_file end_mem src : ℕ) (file bytes : Memory)
      → va ≤ end_file
      → end_file ≤ end_mem
      → end_mem < 2 ^ 64
      → Reaches va end_mem
      → Returns
          (Filled va end_mem (λ a. if ltb a end_file then file (src + (a - va)) else 0) bytes)
          (fill pagetable va end_file end_mem src file mem bytes)
  unfolding fill
  fill-Filled va end_file end_mem src file bytes low high small r =
      let n : sub64 end_file va ≡ end_file - va = omega arith in
      let n' : sub64 end_mem end_file ≡ end_mem - end_file = omega arith in
      let r' : Reaches end_file end_mem = record {
        open_page = λ a lo hi. r.open_page a (omega arith) hi;
        apart = λ a b la ha lb hb. r.apart a b (omega arith) ha (omega arith) hb;
      } in
      rw (n, n')
        (Returns-bind (copy_in-Filled (end_file - va) va src end_mem file bytes (omega arith) r)
          λ bytes1 f. rw (clear_in-copy_in (end_mem - end_file) end_file 0 bytes1) (
            Returns-weaken
              (copy_in-Filled (end_mem - end_file) end_file 0 end_mem (λ q. 0) bytes1 (omega arith)
                r')
              λ bytes2 g.
                Filled-join va end_file end_mem (λ a. file (src + (a - va))) bytes bytes1 bytes2 low
                  high r (Filled-eq (omega arith) f) (Filled-eq (omega arith) g)))

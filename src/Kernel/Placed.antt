-- ===== src/Kernel/Placed.antt =====
-- About program_load of kernel/k-loader.c: it ends, and the process that it leaves.
use mathlib.Core.Path.{subst}
use memory_management.Base.{
  ℕ, zero, suc, ◌+◌, ◌*◌, ◌<◌, ◌≡◌, ◌⊎◌, refl, ◌∙◌, sym, inl, inr, Bool, true, false, ◌&&◌, ◌||◌,
  ◌==◌, ==-refl, ltb, if-cases, Bool-cases, arith,
}
use memory_management.Base.Run.{Settles, settled, faulted, Settles-bind, Settles-weaken}
use memory_management.Clib.Memory.{Memory}
use memory_management.Boot.Elf.{elf_header, elf_magic, elf_program, elf_program_size}
use memory_management.Kernel.System.{Image, System}
use memory_management.Kernel.Syscalls.{Vm}
use memory_management.Kernel.Breaks.{IsProcess}
use memory_management.Kernel.Loader.{Loading, segments_loop, set_rip, program_load}
use memory_management.Kernel.Segment.{Fits, Kept, program_load_segment-IsProcess}

-- A header among the `left` ones from `ph` on whose segment is to be loaded.
abbrev is_load : (ph : ℕ) → Memory → Bool
is_load ph file = (elf_program ph file).p_type == 1

abbrev any_load : (left ph : ℕ) → Memory → Bool
any_load zero ph file = false
any_load (suc left) ph file = is_load ph file || any_load left (ph + elf_program_size) file

-- Every such segment fits.
abbrev pub AllFit : (left ph : ℕ) → Memory → Type 0
AllFit left ph file =
    (i : ℕ)
    → i < left
    → is_load (ph + elf_program_size * i) file ≡ true
    → Fits (elf_program (ph + elf_program_size * i) file)

module _ (vm : Vm) (image : Image) where
  -- The rest of the headers, behind one that is not to be loaded or fits.
  AllFit-suc :
      (left ph : ℕ) (file : Memory)
      → AllFit (suc left) ph file
      → AllFit left (ph + elf_program_size) file
  AllFit-suc left ph file fit i lt loads =
      let at : ph + elf_program_size + elf_program_size * i ≡ ph + elf_program_size * (i + 1) =
        omega arith in
      subst (λ a. is_load a file ≡ true → Fits (elf_program a file)) (sym at)
        (fit (i + 1) (omega arith)) loads

  AllFit-first :
      (left ph : ℕ) (file : Memory)
      → AllFit (suc left) ph file
      → is_load ph file ≡ true
      → Fits (elf_program ph file)
  AllFit-first left ph file fit loads =
      let at : ph + elf_program_size * 0 ≡ ph = omega arith in
      subst (λ a. is_load a file ≡ true → Fits (elf_program a file)) at (fit 0 (omega arith)) loads

  -- What the loop over the headers leaves.
  record Placed (pid : ℕ) (any : Bool) (s t : System) (done : Bool) : Type 0 where
    kept : Kept pid s t
    process : done ≡ true → (any ≡ true) ⊎ IsProcess (s.processes pid) → IsProcess (t.processes pid)

  segments_loop-Placed :
      (left ph pid : ℕ) (file : Memory) (l : Loading)
      → AllFit left ph file
      → Settles
          (λ r. Placed pid (any_load left ph file) l.system r.1.system r.0)
          (segments_loop vm image left ph pid file l)
  unfolding segments_loop
  segments_loop-Placed zero ph pid file l fit = settled (record {
    kept = λ q other. refl;
    process = λ (done : true ≡ true) h. elim h [ inl wrong ↦ absurd (ground arith) | inr v ↦ v ];
  })
  segments_loop-Placed (suc left) ph pid file l fit =
      let next = ph + elf_program_size in
      let fit' = AllFit-suc left ph file fit in
      elim (Bool-cases (is_load ph file)) [
        | inl e ↦
            let first : Fits (elf_program ph file) = AllFit-first left ph file fit e in
            rw e (
              Settles-bind
                (program_load_segment-IsProcess vm image pid (elf_program ph file) _ file l first)
                λ r (kept, process).
                  if-cases (Settles _) r.0
                    (λ done.
                      Settles-weaken (segments_loop-Placed left next pid file r.1 fit') λ r' p.
                        settled (record {
                          kept = λ q other. p.kept q other ∙ kept q other;
                          process = λ done' h. p.process done' (inr (process done));
                        }))
                    (λ failed. settled (record {
                      kept = kept;
                      process = λ wrong h. absurd (ground (arith, wrong));
                    })))
        | inr e ↦ rw e (segments_loop-Placed left next pid file l fit')
      ]

  -- What `program_load` leaves of a process, where it does not fail.
  pub record Ready (pid : ℕ) (file : Memory) (s t : System) : Type 0 where
    pub entry : (t.processes pid).p_registers.reg_rip ≡ (elf_header 0 file).e_entry
    pub process :
        (any_load (elf_header 0 file).e_phnum (elf_header 0 file).e_phoff file ≡ true)
          ⊎ IsProcess (s.processes pid)
        → IsProcess (t.processes pid)

  set_rip-Ready :
      (pid : ℕ) (file : Memory) (s t : System)
      → Placed pid (any_load (elf_header 0 file).e_phnum (elf_header 0 file).e_phoff file) s t true
      → Ready pid file s (set_rip pid (elf_header 0 file).e_entry t)
  set_rip-Ready pid file s t p = record {
    entry = rw (==-refl pid) refl;
    process = λ h.
        let v = p.process refl h in
        rw (==-refl pid) (record { pos = v.pos; above = v.above; below = v.below });
  }

  -- Of a program whose segments to load all lie between the first page and the last one that a
  -- break may reach, `program_load` returns or panics, and never loops. It leaves the other
  -- processes alone; if it does not return -1, the process starts at the entry point of the file,
  -- and its breaks are in their range if a segment was loaded or if they were before.
  pub program_load-Ready :
      (images : ℕ → Memory) (pid program_number : ℕ) (l : Loading)
      → let header = elf_header 0 (images program_number) in
        AllFit header.e_phnum header.e_phoff (images program_number)
        → Settles
            (λ r.
              Kept pid l.system r.1.system
              × (r.0 ≡ true → Ready pid (images program_number) l.system r.1.system))
            (program_load vm image images pid program_number l)
  unfolding program_load
  program_load-Ready images pid program_number l fit =
      let file = images program_number in
      let header = elf_header 0 file in
      if-cases (Settles _) (ltb program_number 4 && (header.e_magic == elf_magic))
        (λ e.
          Settles-bind (segments_loop-Placed header.e_phnum header.e_phoff pid file l fit) λ r p.
            if-cases (Settles _) r.0
              (λ done. settled (
                (λ q other. ground arith ∙ p.kept q other),
                λ e'.
                    set_rip-Ready pid file l.system r.1.system
                      (record { kept = p.kept; process = λ _. p.process done }),
              ))
              (λ failed. settled (p.kept, λ wrong. absurd (ground arith))))
        (λ e. faulted)

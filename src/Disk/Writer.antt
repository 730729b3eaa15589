-- ===== src/Disk/Writer.antt =====
-- diskwrite of build/mkbootdisk.c, and what the program asks of its host. `usage`, which ends the
-- program, is `fault`.
use memory_management.Base.{
  ℕ, zero, suc, ◌+◌, Bool, true, false, not, ◌&&◌, Option, List, [], ◌∷◌, ◌++◌, length, take, drop,
  ◌==◌, ltb, if◌then◌else◌, add64,
}
use memory_management.Base.Run.{Run, ok, fault, out_of_fuel}

-- The result of `write`: an error with EINTR, another error, or the bytes written.
pub data WriteResult : Type 0 where
  interrupted failed : WriteResult
  wrote : ℕ → WriteResult

-- What the program takes from its host: the result of each call of `write` (it writes at most the
-- bytes that it was given), the contents of the files that `fopen` and `open` find, a disk's bytes
-- by sector, and `strtoul` with base 0, which gives the number and the text behind it. A write
-- may be interrupted `patience` times before the model gives up.
pub record Host : Type 0 where
  pub write : (call : ℕ) → WriteResult
  pub patience : ℕ
  pub file : List ℕ → Option (List ℕ)
  pub disk : List ℕ → Option (ℕ → ℕ → ℕ)
  pub strtoul : List ℕ → ℕ × List ℕ

-- `maxoff` and `curoff`; the calls of `write` so far, and the bytes that they wrote from the byte
-- `base` of the output on.
pub record Writer : Type 0 where
  pub calls : ℕ
  pub maxoff : ℕ
  pub curoff : ℕ
  pub base : ℕ
  pub out : List ℕ

-- Whether the partition is too small for `amt` bytes more.
abbrev pub is_full : Writer → (amt : ℕ) → Bool
is_full w amt = not (w.maxoff == 0) && ltb w.maxoff (add64 w.curoff amt)

-- `w` after a call of `write` that wrote the first `n` bytes of `bytes`.
abbrev pub advance : (n : ℕ) → (bytes : List ℕ) → Writer → Writer
advance n bytes w = record w {
  calls = w.calls + 1;
  curoff = w.curoff + length (take n bytes);
  out = w.out ++ take n bytes;
}

module _ (host : Host) where
  -- The loop of `diskwrite`.
  unfoldable pub write_loop : ℕ → List ℕ → Writer → Run Writer
  write_loop zero [] w = ok w
  write_loop zero (c ∷ cs) w = out_of_fuel
  write_loop (suc fuel) [] w = ok w
  write_loop (suc fuel) (c ∷ cs) w = elim (host.write w.calls) [
    | interrupted ↦ write_loop fuel (c ∷ cs) (record w { calls = w.calls + 1 })
    | failed ↦ fault
    | wrote n ↦ elim (n == 0) [
      | true ↦ fault
      | false ↦ write_loop fuel (drop n (c ∷ cs)) (advance n (c ∷ cs) w)
    ]
  ]

  unfoldable pub diskwrite : List ℕ → Writer → Run Writer
  unfolding write_loop
  diskwrite bytes w =
      if is_full w (length bytes) then fault else write_loop (length bytes + host.patience) bytes w

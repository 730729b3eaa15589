-- ===== src/Clib/Strings.antt =====
-- The string functions of shared/lib.c. A string is read up to its NUL; the fuel of a loop bounds
-- the characters that it may read.
use memory_management.Base.{
  ℕ, zero, suc, ◌+◌, ◌-◌, ◌%◌, ◌^◌, ◌<◌, ◌≡◌, ap, ◌∙◌, ◌⊎◌, inl, Bool, true, false, not, ◌&&◌,
  Option, none, some, List, [], ◌∷◌, length, ◌==◌, ltb, update, if◌then◌else◌, arith,
}
use memory_management.Base.Run.{Run, ok, out_of_fuel, Returns, returns, Returns-weaken}
use memory_management.Clib.Memory.{Memory}

unfoldable strlen_loop : ℕ → (s n : ℕ) → Memory → Run ℕ
strlen_loop zero s n m = out_of_fuel
strlen_loop (suc fuel) s n m =
    let rest = strlen_loop fuel (s + 1) (n + 1) m in if m s == 0 then ok n else rest

-- `strlen`, of a string of less than `fuel` characters
unfoldable strlen : (fuel s : ℕ) → Memory → Run ℕ
unfolding strlen_loop
strlen fuel s m = strlen_loop fuel s 0 m

-- `strnlen`; its loop ends at `maxlen`.
unfoldable strnlen_loop : (left s n : ℕ) → Memory → ℕ
strnlen_loop zero s n m = n
strnlen_loop (suc left) s n m =
    let rest = strnlen_loop left (s + 1) (n + 1) m in if m s == 0 then n else rest

unfoldable strnlen : (s maxlen : ℕ) → Memory → ℕ
unfolding strnlen_loop
strnlen s maxlen m = strnlen_loop maxlen s 0 m

-- `strchr`, with `none` for NULL
unfoldable strchr : (fuel s c : ℕ) → Memory → Run (Option ℕ)
strchr zero s c m = out_of_fuel
strchr (suc fuel) s c m =
    let rest = strchr fuel (s + 1) c m in
    if not (m s == 0) && not (m s == c % 256)
    then rest
    else ok (if m s == c % 256 then some s else none)

-- `(a > b) - (a < b)`, as the bit pattern of an `int`
abbrev compare_chars : (a b : ℕ) → ℕ
compare_chars a b = if ltb b a then 1 else if ltb a b then 2 ^ 32 - 1 else 0

-- `strcmp`
unfoldable pub strcmp : (fuel a b : ℕ) → Memory → Run ℕ
strcmp zero a b m = out_of_fuel
strcmp (suc fuel) a b m =
    let rest = strcmp fuel (a + 1) (b + 1) m in
    if not (m a == 0) && not (m b == 0) && (m a == m b)
    then rest
    else ok (compare_chars (m a) (m b))

-- The loop of `strcpy`, which copies the NUL too.
unfoldable strcpy_loop : ℕ → (d s : ℕ) → Memory → Run Memory
strcpy_loop zero d s m = out_of_fuel
strcpy_loop (suc fuel) d s m =
    let m' = update m d (m s) in
    let rest = strcpy_loop fuel (d + 1) (s + 1) m' in if m' d == 0 then ok m' else rest

unfoldable pub strcpy : (fuel dst src : ℕ) → Memory → Run Memory
unfolding strcpy_loop
strcpy fuel dst src m = strcpy_loop fuel dst src m

-- The characters of the string at `p`.
abbrev pub IsString : ℕ → List ℕ → Memory → Type 0
IsString p [] m = m p ≡ 0
IsString p (c ∷ cs) m = (m p ≡ c) × (0 < c) × IsString (p + 1) cs m

-- What `strcpy` leaves: the string at `dst`, and every byte outside its place as it was.
pub record Copied (dst : ℕ) (cs : List ℕ) (m m' : Memory) : Type 0 where
  pub string : IsString dst cs m'
  pub same : (q : ℕ) → (q < dst) ⊎ (dst + length cs < q) → m' q ≡ m q

-- The order of a dictionary, as `strcmp` reports it.
abbrev lexicographic : List ℕ → List ℕ → ℕ
lexicographic [] [] = 0
lexicographic [] (d ∷ ds) = 2 ^ 32 - 1
lexicographic (c ∷ cs) [] = 1
lexicographic (c ∷ cs) (d ∷ ds) = if c == d then lexicographic cs ds else compare_chars c d

-- The smaller of a string's length and a bound.
abbrev pub length_up_to : ℕ → List ℕ → ℕ
length_up_to zero cs = 0
length_up_to (suc n) [] = 0
length_up_to (suc n) (c ∷ cs) = suc (length_up_to n cs)

strlen_loop_lem :
    (fuel s n : ℕ) (cs : List ℕ) (m : Memory)
    → IsString s cs m
    → length cs < fuel
    → strlen_loop fuel s n m ≡ ok (n + length cs)
unfolding strlen_loop
strlen_loop_lem zero s n cs m v h = absurd (omega arith)
strlen_loop_lem (suc fuel) s n [] m v h = ground arith
strlen_loop_lem (suc fuel) s n (c ∷ cs) m v h =
    ground (arith, strlen_loop_lem fuel (s + 1) (n + 1) cs m v.2 (omega (arith, h)))

-- `strlen` of a string returns its length, given more fuel than that.
strlen_lem :
    (fuel s : ℕ) (cs : List ℕ) (m : Memory)
    → IsString s cs m
    → length cs < fuel
    → strlen fuel s m ≡ ok (length cs)
unfolding strlen
strlen_lem fuel s cs m v h =
    let e : 0 + length cs ≡ length cs = omega arith in strlen_loop_lem fuel s 0 cs m v h ∙ ap ok e

strnlen_loop_lem :
    (left s n : ℕ) (cs : List ℕ) (m : Memory)
    → IsString s cs m
    → strnlen_loop left s n m ≡ n + length_up_to left cs
unfolding strnlen_loop
strnlen_loop_lem zero s n cs m v = omega arith
strnlen_loop_lem (suc left) s n [] m v = ground arith
strnlen_loop_lem (suc left) s n (c ∷ cs) m v =
    ground (arith, strnlen_loop_lem left (s + 1) (n + 1) cs m v.2)

-- `strnlen` of a string is the smaller of its length and `maxlen`.
strnlen_lem :
    (s maxlen : ℕ) (cs : List ℕ) (m : Memory)
    → IsString s cs m
    → strnlen s maxlen m ≡ length_up_to maxlen cs
unfolding strnlen
strnlen_lem s maxlen cs m v = strnlen_loop_lem maxlen s 0 cs m v ∙ omega arith

-- `strcmp` of two strings, with more fuel than the first has characters, returns their order in a
-- dictionary.
pub strcmp_lem :
    (fuel a b : ℕ) (cs ds : List ℕ) (m : Memory)
    → IsString a cs m
    → IsString b ds m
    → length cs < fuel
    → strcmp fuel a b m ≡ ok (lexicographic cs ds)
unfolding strcmp
strcmp_lem zero a b cs ds m v w h = absurd (omega arith)
strcmp_lem (suc fuel) a b [] [] m v w h = ground arith
strcmp_lem (suc fuel) a b [] (d ∷ ds) m v w h = ground arith
strcmp_lem (suc fuel) a b (c ∷ cs) [] m v w h = ground arith
strcmp_lem (suc fuel) a b (c ∷ cs) (d ∷ ds) m v w h =
    ground (arith, strcmp_lem fuel (a + 1) (b + 1) cs ds m v.2 w.2)

-- A write outside a string leaves it alone.
IsString-update :
    (p d x : ℕ) (cs : List ℕ) (m : Memory)
    → (d < p) ⊎ (p + length cs < d)
    → IsString p cs m
    → IsString p cs (update m d x)
IsString-update p d x [] m h v = ground arith
IsString-update p d x (c ∷ cs) m h (e, pos, v) =
    (ground arith, pos, IsString-update (p + 1) d x cs m (ground arith) v)

strcpy_loop-Copied :
    (fuel d s : ℕ) (cs : List ℕ) (m : Memory)
    → IsString s cs m
    → length cs < fuel
    → (d < s) ⊎ (s + length cs < d)
    → Returns (Copied d cs m) (strcpy_loop fuel d s m)
unfolding strcpy_loop
strcpy_loop-Copied zero d s cs m v h apart = absurd (omega arith)
strcpy_loop-Copied (suc fuel) d s [] m v h apart =
    let m' = update m d (m s) in
    let stop : (m' d == 0) ≡ true = ground arith in
    rw stop (returns (record { string = ground arith; same = λ q o. ground arith }))
strcpy_loop-Copied (suc fuel) d s (c ∷ cs) m (e, pos, v) h apart =
    let m' = update m d (m s) in
    let go_on : (m' d == 0) ≡ false = ground arith in
    let tail : IsString (s + 1) cs m' =
      IsString-update (s + 1) d (m s) cs m (ground (arith, apart)) v in
    rw go_on (
      Returns-weaken
        (strcpy_loop-Copied fuel (d + 1) (s + 1) cs m' tail (omega (arith, h))
          (ground (arith, apart)))
        λ r c. record {
          string = (c.same d (inl (omega arith)) ∙ ground (arith, e), pos, c.string);
          same = λ q o. c.same q (ground (arith, o)) ∙ ground (arith, o);
        })

-- `strcpy` of a string to a place that lies before it or behind its NUL copies it, with the NUL,
-- and changes nothing else; the fuel is more than its length.
pub strcpy-Copied :
    (fuel dst src : ℕ) (cs : List ℕ) (m : Memory)
    → IsString src cs m
    → length cs < fuel
    → (dst < src) ⊎ (src + length cs < dst)
    → Returns (Copied dst cs m) (strcpy fuel dst src m)
unfolding strcpy
strcpy-Copied fuel dst src cs m v h apart = strcpy_loop-Copied fuel dst src cs m v h apart

-- `strcmp(s, t) == 0`, of strings as lists of their characters before the NUL
unfoldable pub same_text : (s t : List ℕ) → Bool
same_text [] [] = true
same_text (c ∷ s) (d ∷ t) = (c == d) && same_text s t
same_text s t = false

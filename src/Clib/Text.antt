-- ===== src/Clib/Text.antt =====
-- The string functions of common/libc/string over byte memory. A loop reads at most `limit` bytes: a
-- string with no terminator in so many bytes is a `fault`. Pointers are addresses, NULL is `none`.
pub mod Copying
pub mod Compare
pub mod Search
pub mod Tokens
use os.Base.{
  ℕ, zero, suc, ◌+◌, ◌%◌, ◌<◌, ◌≡◌, ◌≢◌, Bool, true, false, if◌then◌else◌, Option, none, some,
  Result, ok, fault, ◌>>=◌, ltb, ◌==◌, update,
}
use os.Clib.Move.{Bytes, store}

-- A string of length `n` stands at `s`.
abbrev pub IsString : Bytes → ℕ → ℕ → Type 0
IsString mem s n = (mem (s + n) ≡ 0) × ((i : ℕ) → i < n → mem (s + i) ≢ 0)

module _ (mem : Bytes) where
  -- The loop of strlen at `ret`.
  unfoldable pub strlen_loop : ℕ → ℕ → ℕ → Result ℕ
  strlen_loop str zero ret = fault
  strlen_loop str (suc limit) ret =
      let rest = strlen_loop str limit (ret + 1) in if mem (str + ret) == 0 then ok ret else rest

  unfoldable pub strlen : ℕ → ℕ → Result ℕ
  unfolding strlen_loop
  strlen limit str = strlen_loop str limit 0

  -- strchr at `s`, for the char `ch`.
  unfoldable pub strchr_loop : ℕ → ℕ → ℕ → Result (Option ℕ)
  strchr_loop ch zero s = fault
  strchr_loop ch (suc limit) s =
      let rest = strchr_loop ch limit (s + 1) in
      if mem s == 0
      then ok (if mem s == ch then some s else none)
      else if mem s == ch
      then ok (some s)
      else rest

  -- `const char ch = ch_arg`
  unfoldable pub strchr : ℕ → ℕ → ℕ → Result (Option ℕ)
  unfolding strchr_loop
  strchr limit s ch_arg = strchr_loop (ch_arg % 256) limit s

  -- The loop of strrchr, from the byte under `i` down.
  unfoldable pub strrchr_loop : ℕ → ℕ → ℕ → Option ℕ
  strrchr_loop s ch zero = none
  strrchr_loop s ch (suc i) =
      let rest = strrchr_loop s ch i in if mem (s + i) == ch then some (s + i) else rest

  unfoldable pub strrchr : ℕ → ℕ → ℕ → Result (Option ℕ)
  unfolding strlen strrchr_loop
  strrchr limit s ch_arg = do n ← strlen limit s; ok (strrchr_loop s (ch_arg % 256) (n + 1))

  -- The loop of strcmp: the offset where it stops.
  unfoldable pub strcmp_loop : ℕ → ℕ → ℕ → ℕ → Result ℕ
  strcmp_loop a b zero i = fault
  strcmp_loop a b (suc limit) i =
      let rest = strcmp_loop a b limit (i + 1) in
      if mem (a + i) == 0 then ok i else if mem (a + i) == mem (b + i) then rest else ok i

  -- strcmp; its -1 is the word 2^32 - 1.
  unfoldable pub strcmp : ℕ → ℕ → ℕ → Result ℕ
  unfolding strcmp_loop
  strcmp limit a b = do
    i ← strcmp_loop a b limit 0
    ok (
        if ltb (mem (b + i)) (mem (a + i))
        then 1
        else if mem (a + i) == mem (b + i)
        then 0
        else 4294967295)

-- The loop of strcpy at `i`, and the terminator behind it.
unfoldable pub strcpy_loop : ℕ → ℕ → ℕ → ℕ → Bytes → Result Bytes
strcpy_loop dest src zero i mem = fault
strcpy_loop dest src (suc limit) i mem =
    let rest = strcpy_loop dest src limit (i + 1) (store 1 (dest + i) (src + i) mem) in
    if mem (src + i) == 0 then ok (update mem (dest + i) 0) else rest

unfoldable pub strcpy : ℕ → ℕ → ℕ → Bytes → Result Bytes
unfolding strcpy_loop
strcpy limit dest src mem = strcpy_loop dest src limit 0 mem

unfoldable pub strcat : ℕ → ℕ → ℕ → Bytes → Result Bytes
unfolding strlen strcpy
strcat limit dest src mem = do offset ← strlen mem limit dest; strcpy limit (dest + offset) src mem

-- What strtok_r leaves: memory, `*context` and its result.
pub record Token : Type 0 where
  pub mem : Bytes
  pub context : Option ℕ
  pub word : Option ℕ

-- A pointer as a condition.
unfoldable pub is_found : Option ℕ → Bool
is_found none = false
is_found (some p) = true

module _ (mem : Bytes) (limit seps : ℕ) where
  -- `while (*head && strchr(seps, *head)) head++`
  unfoldable pub skip_separators : ℕ → ℕ → Result ℕ
  unfolding strchr is_found
  skip_separators zero head = fault
  skip_separators (suc fuel) head =
      let rest = skip_separators fuel (head + 1) in
      if mem head == 0
      then ok head
      else (strchr mem limit seps (mem head) >>= λ p. if is_found p then rest else ok head)

  -- `while (*tail && !strchr(seps, *tail)) tail++`
  unfoldable pub skip_word : ℕ → ℕ → Result ℕ
  unfolding strchr is_found
  skip_word zero tail = fault
  skip_word (suc fuel) tail =
      let rest = skip_word fuel (tail + 1) in
      if mem tail == 0
      then ok tail
      else (strchr mem limit seps (mem tail) >>= λ p. if is_found p then ok tail else rest)

  -- What strtok_r does behind its two loops.
  unfoldable pub cut_at : ℕ → ℕ → Token
  cut_at head tail =
      if mem tail == 0
      then record { mem = mem; context = none; word = some head }
      else record { mem = update mem tail 0; context = some (tail + 1); word = some head }

  unfoldable pub next_word : ℕ → Result Token
  unfolding skip_word cut_at
  next_word head =
      if mem head == 0
      then ok record { mem = mem; context = none; word = none }
      else (skip_word limit head >>= λ tail. ok (cut_at head tail))

  -- strtok_r once `*context` is set.
  unfoldable pub resume : Option ℕ → Result Token
  unfolding skip_separators next_word
  resume none = ok record { mem = mem; context = none; word = none }
  resume (some start) = skip_separators limit start >>= next_word

  unfoldable pub strtok_r : Option ℕ → Option ℕ → Result Token
  unfolding resume
  strtok_r none context = resume context
  strtok_r (some string) context = resume (some string)

-- ===== src/Clib/Tests.antt =====
-- The theorems about common/libc at concrete inputs.
use os.Base.{
  ◌≡◌, refl, true, ℕ, ◌+◌, ◌<◌, ◌⊎◌, inl, inr, none, some, ok, Option, Result, ◌||◌, if◌then◌else◌,
  ◌==◌, arith,
}
use os.Clib.Text.{Token, IsString, strcat, strcmp, strchr, strrchr, strtok_r}
use os.Clib.Number.{digits, atoi}
use os.Clib.Number.Laws.{minus, IsBlank, IsNumber, signed, decimal, atoi-decimal}
use os.Clib.Text.Copying.{strcat-IsString}
use os.Clib.Text.Compare.{AgreeBelow, strcmp-AgreeBelow}
use os.Clib.Text.Tokens.{NoWord, OneWord, strtok_r_lem}
use os.Clib.Move.{Bytes, store, memmove}
use os.Clib.Move.Loops.{Copies}
use os.Clib.Move.Laws.{memmove-Copies}

abbrev counting : Bytes
counting x = x

memmove-Copies_example : Copies 8 104 100 counting (memmove (λ _. true) 104 100 8 counting)
memmove-Copies_example = memmove-Copies (λ _. true) (λ _. refl) 104 100 8 counting

-- Byte 111 comes from 107, though the regions overlap.
moved_back : (memmove (λ _. true) 104 100 8 counting).0 111 ≡ 107
unfolding memmove store
moved_back = refl

-- The string "aa,,a" at 100 and the string "," at 200.
abbrev texts : Bytes
texts x = if x == 105 || x == 201 then 0 else if x == 102 || x == 103 || x == 200 then 44 else 97

letters-IsString : IsString texts 100 5
letters-IsString = (refl, λ i lt. ground arith)

comma-IsString : IsString texts 200 1
comma-IsString = (refl, λ i lt. ground arith)

texts_lt : (x : ℕ) → texts x < 256
texts_lt x = ground arith

strcat-IsString_example :
    (mem' : Bytes) × (strcat 10 100 200 texts ≡ ok mem')
    × ((x : ℕ) → mem' x ≡ store 2 105 200 texts x)
    × IsString mem' 100 6
strcat-IsString_example =
    strcat-IsString 100 200 5 1 (inr (omega arith)) texts letters-IsString comma-IsString 10
      (omega arith) (omega arith)

strcmp-AgreeBelow_example :
    (k : ℕ) × AgreeBelow texts 100 200 5 1 letters-IsString comma-IsString k
    × (((strcmp texts 10 100 200 ≡ ok 0) × (k ≡ 5) × (k ≡ 1))
        ⊎ ((strcmp texts 10 100 200 ≡ ok 1) × (texts (200 + k) < texts (100 + k)))
        ⊎ ((strcmp texts 10 100 200 ≡ ok 4294967295) × (texts (100 + k) < texts (200 + k))))
strcmp-AgreeBelow_example =
    strcmp-AgreeBelow texts 100 200 5 1 letters-IsString comma-IsString 10 (omega arith)

strtok_r_lem_example :
    NoWord texts texts_lt 10 200 1 comma-IsString
      (omega arith)
      100
      5
      letters-IsString
      (strtok_r texts 10 200 (some 100) none)
    ⊎ OneWord texts texts_lt 10 200 1 comma-IsString
        (omega arith)
        100
        5
        letters-IsString
        (strtok_r texts 10 200 (some 100) none)
strtok_r_lem_example =
    strtok_r_lem texts texts_lt 10 200 1 comma-IsString (omega arith) 100 5 letters-IsString
      (some 100) none (omega arith) (inl refl)

-- The first comma of two, and the second.
found : (strchr texts 10 100 44 ≡ ok (some 102)) × (strrchr texts 10 100 44 ≡ ok (some 103))
unfolding strchr strrchr
found = (refl, refl)

-- The two words, call by call.
abbrev returned_context : Result Token → Option ℕ
returned_context (ok token) = token.context
returned_context _ = none

abbrev returned_word : Result Token → Option ℕ
returned_word (ok token) = token.word
returned_word _ = none

two_words :
    (returned_word (strtok_r texts 10 200 (some 100) none) ≡ some 100)
    × (returned_context (strtok_r texts 10 200 (some 100) none) ≡ some 103)
    × (returned_word (strtok_r texts 10 200 none (some 103)) ≡ some 104)
    × (returned_context (strtok_r texts 10 200 none (some 103)) ≡ none)
unfolding strtok_r
two_words = (refl, refl, refl, refl)

-- " -42x" at 300.
abbrev figures : Bytes
figures x =
    if x == 300
    then 32
    else if x == 301
    then 45
    else if x == 302
    then 52
    else if x == 303
    then 50
    else 120

figures_lt : (x : ℕ) → figures x < 256
figures_lt x = ground arith

figures-IsBlank : IsBlank figures figures_lt 300 1
figures-IsBlank = record { row = λ i lt. ground arith; end = (ground arith, ground arith) }

figures-IsNumber : IsNumber figures figures_lt 302 2
figures-IsNumber = record { row = λ i lt. ground arith; end = inr (omega arith) }

atoi-decimal_example : atoi figures 10 300 ≡ ok (signed minus (decimal figures 302 2))
atoi-decimal_example =
    atoi-decimal figures figures_lt 300 1 2 302 minus 10 figures-IsBlank (refl, refl)
      figures-IsNumber (omega arith) (omega arith)

-- 2^32 - 42
minus_42 : atoi figures 10 300 ≡ ok 4294967254
unfolding atoi strchr digits
minus_42 = refl

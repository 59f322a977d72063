-- ===== src/Capturer/Since.antt =====
-- Phrases that GetVerboseInfo of several capturers has about the last snapshot. `interval_text`
-- prints a duration rounded to milliseconds.
use mini_edr.Prelude.Strings.{decimal, texts, signed}
use mini_edr.Prelude.{
  ℕ, ◌-◌, ltb, if◌then◌else◌, ℤ, pos, ◌-ℤ◌, Text, bytes, [], ◌∷◌, ◌++◌, Option, none, some,
}
use mini_edr.Capturer.Info.{Time}

module _ {A : Type 0} where
  -- ` (prev=%d, delta=%+d)`
  unfoldable pub prev_count : (A → ℕ) → Option A → A → Text
  prev_count count none curr = []
  prev_count count (some prev) curr = texts (
      bytes " (prev="
      ∷ decimal (count prev)
      ∷ bytes ", delta="
      ∷ signed (pos (count curr) -ℤ pos (count prev))
      ∷ bytes ")"
      ∷ [])

  -- `, interval=%s`
  unfoldable pub interval_part : (ℤ → Text) → (A → Time) → Option A → A → Text
  interval_part interval_text at none curr = []
  interval_part interval_text at (some prev) curr =
      bytes ", interval=" ++ interval_text (pos (at curr) -ℤ pos (at prev))

  -- `, prev=%d, delta=%+d`
  unfoldable pub prev_total : (A → ℕ) → Option A → A → Text
  prev_total count none curr = []
  prev_total count (some prev) curr = texts (
      bytes ", prev="
      ∷ decimal (count prev)
      ∷ bytes ", delta="
      ∷ signed (pos (count curr) -ℤ pos (count prev))
      ∷ [])

-- `... (+%d more)`, for what a list leaves out of all
unfoldable pub more_text : Text → ℕ → ℕ → Text
more_text indent all listed =
    if ltb listed all
    then texts (indent ∷ bytes "... (+" ∷ decimal (all - listed) ∷ bytes " more)\n" ∷ [])
    else []

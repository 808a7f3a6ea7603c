-- ===== src/Audit/Tests/Messages.antt =====
-- Timestamps and messages of the audit trail at concrete inputs.
use causalmesh.Prelude.{
  ℕ, ◌+◌, ◌*◌, ◌≤◌, ◌<◌, Bool, true, not, ◌||◌, none, some, List, ◌∷◌, ◌++◌, length, all, All, ltb,
  ◌==◌, nat_eq, ◌≡◌, ◌⊎◌, refl,
}
use causalmesh.Prelude.Text.{Text, text, join_with}
use causalmesh.Audit.Timestamps.{
  year_of_era, day_of_year, month_part, civil_of, format_epoch_iso, time_of, time_of-civil_of,
}
use causalmesh.Audit.Secrets.{
  Range, looks_like_secret_blob, value_end, key_value, key_values, credentials, userinfo,
  bare_userinfo, found_ranges, panics, secret_ranges,
}
use causalmesh.Audit.Merging.{IsApart, IsCovered, secret_ranges-IsApart}
use causalmesh.Audit.Messages.{
  max_error_message_chars, strip_serde_values, collapse_home, sanitize_error_message,
}
use causalmesh.Audit.Limits.{sanitize_error_message-bounds}

leap_day : format_epoch_iso 951_826_640 7 ≡ text "2000-02-29T12:17:20.007Z"
unfolding format_epoch_iso civil_of year_of_era day_of_year month_part
leap_day = refl

time_of-civil_of_example :
    (time_of (civil_of 951_826_640 7) ≡ some (951_826_640 * 1000 + 7))
    × ((civil_of 951_826_640 7).month ≤ 12)
    × (1 ≤ (civil_of 951_826_640 7).month)
    × ((civil_of 951_826_640 7).day ≤ 31)
    × (1 ≤ (civil_of 951_826_640 7).day)
    × ((civil_of 951_826_640 7).hours < 24)
    × ((civil_of 951_826_640 7).minutes < 60)
    × ((civil_of 951_826_640 7).seconds < 60)
time_of-civil_of_example = time_of-civil_of 951_826_640 7

abbrev is_blank : ℕ → Bool
is_blank c = c == b' ' || c == 160

abbrev is_below : ℕ → Bool
is_below c = ltb c 32

-- A no-break space before `user:password@host` makes the search panic.
no_break_space_panics : secret_ranges is_blank (text "x" ++ (160 ∷ text "u:p@h")) ≡ none
unfolding secret_ranges panics
no_break_space_panics = refl

abbrev login : Text
login = text "at /home/me/a password: abc"

login_is_clean :
    sanitize_error_message is_blank is_below login none
    ≡ some (text "at ~/a password: [REDACTED_SECRET: USE_ENV_OR_LOCAL_FALLBACK]")
unfolding sanitize_error_message strip_serde_values collapse_home secret_ranges panics found_ranges
    key_values key_value credentials userinfo bare_userinfo value_end looks_like_secret_blob
    join_with
login_is_clean = refl

secret_ranges-IsApart_example :
    ((panics is_blank login ≡ true) × (secret_ranges is_blank login ≡ none))
    ⊎ ((ranges : List Range) × (secret_ranges is_blank login ≡ some ranges)
        × IsApart ranges
        × All (IsCovered ranges) (found_ranges is_blank login))
secret_ranges-IsApart_example = secret_ranges-IsApart is_blank login

sanitize_error_message-bounds_example :
    (length (text "at ~/a password: [REDACTED_SECRET: USE_ENV_OR_LOCAL_FALLBACK]")
      ≤ max_error_message_chars)
    × (all
          (λ c. not (is_below c))
          (text "at ~/a password: [REDACTED_SECRET: USE_ENV_OR_LOCAL_FALLBACK]")
        ≡ true)
sanitize_error_message-bounds_example =
    sanitize_error_message-bounds is_blank is_below refl refl login none
      (text "at ~/a password: [REDACTED_SECRET: USE_ENV_OR_LOCAL_FALLBACK]") login_is_clean

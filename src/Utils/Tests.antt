-- ===== src/Utils/Tests.antt =====
-- src/common.cpp, namespace utils, at concrete inputs.
use smallchat.Base.{◌+◌, ◌≡◌, refl, ◌∷◌, ◌++◌, codes, length, [], arith}
use smallchat.Std.Decimal.{pos}
use smallchat.Utils.{trim, emoji_map, replace_emojis, format_timestamp, generate_random_id}
use smallchat.Utils.Emojis.{replace_emojis-terminates, ReplacedAll}

heart :
    replace_emojis emoji_map (codes "I <3 U")
    ≡ codes "I " ++ (0xe2 ∷ 0x9d ∷ 0xa4 ∷ 0xef ∷ 0xb8 ∷ 0x8f ∷ codes " U")
unfolding replace_emojis emoji_map
heart = refl

trim_run : trim (codes " \t a b \n") ≡ codes "a b"
unfolding trim
trim_run = refl

twenty_one_emojis : length emoji_map ≡ 21
unfolding emoji_map
twenty_one_emojis = refl

replace_emojis-terminates_example :
    ReplacedAll emoji_map (codes "ok :)") (replace_emojis emoji_map (codes "ok :)"))
unfolding emoji_map
replace_emojis-terminates_example =
    replace_emojis-terminates emoji_map (codes "ok :)") (ground arith)

random_run : generate_random_id (λ i. 60 + i) (pos 4) ≡ codes "89" ++ (0 ∷ 0 ∷ [])
unfolding generate_random_id
random_run = refl

format_run :
    format_timestamp
      (record { tm_year = 124; tm_mon = 1; tm_mday = 9; tm_hour = 0; tm_min = 5; tm_sec = 59 })
    ≡ codes "2024-02-09 00:05:59"
unfolding format_timestamp smallchat.Std.Decimal.print
format_run = refl

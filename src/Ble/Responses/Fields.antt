-- ===== src/Ble/Responses/Fields.antt =====
-- The fields of a payload: how `parse_weather_payload` and `extract_lean_string` run.
use minimal_watch_firmware_e.Base.{
  ℕ, zero, suc, ◌+◌, ◌-◌, ◌*◌, ◌≤◌, ◌<◌, ◌≡◌, ◌∙◌, refl, ap, true, false, some, List, arith, min,
  leb, le→ltb, read, store, copy, length, length-read, ◌>>=◌, u16,
}
use Prim.Native.Nat.{bit_or}
use minimal_watch_firmware_e.Common.{HourlyWeather}
use minimal_watch_firmware_e.Ble.Message.{Msg, max_payload_size}
use minimal_watch_firmware_e.Ble.Multichunk.{read_payload}
use minimal_watch_firmware_e.Ble.Responses.{
  byte_at, int16, word, parse_date_time_payload, parse_hour, parse_hours, Chars, put_string,
  copy_bytes, extract_text, extract_lean_string,
}

pub byte_at_lem : (m : Msg) (i : ℕ) → i < max_payload_size → byte_at m i ≡ some (m.payload i)
byte_at_lem m i h = ground arith

pub date_run :
    (m : Msg)
    → parse_date_time_payload m
      ≡ some (word (m.payload 0) (m.payload 1) (m.payload 2) (m.payload 3))
date_run m = refl

-- The hour that the six bytes from `i` on say.
abbrev pub hour_at : (ℕ → ℕ) → ℕ → HourlyWeather
hour_at b i = record {
  temperature = int16 (bit_or (b i * 256) (b (i + 1)));
  humidity = b (i + 2);
  precip_prob = b (i + 3);
  weather_code = b (i + 4);
  wind_speed = b (i + 5);
}

hour_run :
    (m : Msg) (i : ℕ) → i + 6 ≤ max_payload_size → parse_hour m i ≡ some (hour_at m.payload i)
hour_run m i h = rw (
  byte_at_lem m i (omega arith),
  byte_at_lem m (i + 1) (omega arith),
  byte_at_lem m (i + 2) (omega arith),
  byte_at_lem m (i + 3) (omega arith),
  byte_at_lem m (i + 4) (omega arith),
  byte_at_lem m (i + 5) (omega arith),
)

-- The table with `n` hours from the `i`th on, read from `idx` on.
abbrev pub hours_at : ℕ → (ℕ → ℕ) → ℕ → ℕ → (ℕ → HourlyWeather) → ℕ → HourlyWeather
hours_at zero b i idx hours = hours
hours_at (suc n) b i idx hours = hours_at n b (i + 1) (idx + 6) (store hours i (hour_at b idx))

pub hours_run :
    (n : ℕ) (m : Msg) (i idx : ℕ) (hours : ℕ → HourlyWeather)
    → idx + n * 6 ≤ max_payload_size
    → parse_hours n m i idx hours ≡ some (hours_at n m.payload i idx hours)
hours_run zero m i idx hours h = refl
hours_run (suc n) m i idx hours h =
    ap (λ o. o >>= λ hour. parse_hours n m (i + 1) (u16 (idx + 6)) (store hours i hour))
      (hour_run m idx (omega arith))
    ∙ ap (λ k. parse_hours n m (i + 1) k (store hours i (hour_at m.payload idx))) (omega arith)
    ∙ hours_run n m (i + 1) (idx + 6) (store hours i (hour_at m.payload idx)) (omega arith)

-- How many bytes of a string are kept.
abbrev pub chars_kept : ℕ → ℕ → ℕ
chars_kept l dest_max = min l (dest_max - 1)

abbrev pub with_string : Chars → List ℕ → Chars
with_string dest xs = record dest { cells = store (copy dest.cells 0 xs) (length xs) 0 }

lt→leb : (a b : ℕ) → a < b → leb b a ≡ false
lt→leb a b h = ground arith

put_run :
    (dest : Chars) (xs : List ℕ)
    → length xs < dest.size
    → put_string dest xs ≡ some (with_string dest xs)
put_run dest xs h = ground arith

read_run :
    (m : Msg) (i n : ℕ) → i + n ≤ max_payload_size → read_payload m i n ≡ some (read m.payload i n)
read_run m i n h = ground arith

kept_lem :
    (l dest_max : ℕ) → dest_max ≤ 256 → 0 < dest_max → copy_bytes l dest_max ≡ chars_kept l dest_max
kept_lem l dest_max h k = ground arith

text_run :
    (m : Msg) (len i l : ℕ) (dest : Chars) (n dest_max : ℕ)
    → len ≤ max_payload_size
    → i + 1 + l ≤ len
    → copy_bytes l dest_max ≡ n
    → n ≤ l
    → n < dest.size
    → extract_text m len i (i + 1) l dest dest_max
      ≡ some (true, i + 1 + l, with_string dest (read m.payload (i + 1) n))
text_run m len i l dest n dest_max h k e p q =
    rw
      (
        le→ltb len (i + 1 + l) k,
        e,
        read_run m (i + 1) n (omega arith),
        put_run dest (read m.payload (i + 1) n) (omega (arith, length-read m.payload (i + 1) n)),
      )
      (ap (λ j. some (true, j, with_string dest (read m.payload (i + 1) n))) (omega arith))

-- A string that is there is taken, as much of it as fits.
pub extract_run :
    (m : Msg) (len i : ℕ) (dest : Chars) (dest_max : ℕ)
    → len ≤ max_payload_size
    → i + 1 + m.payload i ≤ len
    → 0 < dest_max
    → dest_max ≤ 256
    → dest_max ≤ dest.size
    → extract_lean_string m len i dest dest_max
      ≡ some (
        true,
        i + 1 + m.payload i,
        with_string dest (read m.payload (i + 1) (chars_kept (m.payload i) dest_max)),
      )
unfolding extract_lean_string
extract_run m len i dest dest_max h k a b c =
    rw (lt→leb i len (omega arith), byte_at_lem m i (omega arith))
      (ap (λ j. extract_text m len i j (m.payload i) dest dest_max) (omega arith)
        ∙ text_run m len i (m.payload i) dest (chars_kept (m.payload i) dest_max) dest_max h k
            (kept_lem (m.payload i) dest_max b a) (omega arith) (omega arith))

-- A string that does not end inside the payload is refused, and nothing is written.
pub extract_refused :
    (m : Msg) (len i : ℕ) (dest : Chars) (dest_max : ℕ)
    → len ≤ max_payload_size
    → len < i + 1 + m.payload i
    → extract_lean_string m len i dest dest_max ≡ some (false, i, dest)
unfolding extract_lean_string
extract_refused m len i dest dest_max h k = ground arith

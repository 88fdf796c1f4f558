-- ===== src/Ble/Responses/Weather.antt =====
-- The weather as the phone writes it, and what `handle_ble_response` reads of it.
use Prim.Native.Nat.{bit_or}
use minimal_watch_firmware_e.Base.{
  ℕ, zero, suc, ◌+◌, ◌-◌, ◌*◌, ◌/◌, ◌%◌, ◌≤◌, ◌<◌, ◌≡◌, ◌∙◌, refl, sym, ap, ap₂, some, List, [],
  ◌∷◌, ◌++◌, arith, ℕ_discrete, read, read_split, read_agree, nth, store_here, store_there, store,
  ◌>>=◌, u32,
}
use minimal_watch_firmware_e.Base.Bits.{bit_or-sum}
use minimal_watch_firmware_e.Wakelock.{ℤ, pos, negsuc}
use minimal_watch_firmware_e.Common.{HourlyWeather, WeatherSync}
use minimal_watch_firmware_e.Ble.Message.{Msg}
use minimal_watch_firmware_e.Ble.Multichunk.{Parser}
use minimal_watch_firmware_e.Ble.Responses.{
  word, int16, Outside, time_sync, weather_sync, tell, weather_size, time_size, handle_ble_response,
  parse_weather_payload,
}
use minimal_watch_firmware_e.Ble.Responses.Fields.{hour_at, hours_at}
use minimal_watch_firmware_e.Ble.Responses.Returns.{weather_at, weather_run}

-- A number in four bytes, the highest first.
abbrev pub word_bytes : ℕ → List ℕ
word_bytes e = e / 16777216 ∷ e / 65536 % 256 ∷ e / 256 % 256 ∷ e % 256 ∷ []

-- The two's complement.
abbrev bits16 : ℤ → ℕ
bits16 (pos n) = n
bits16 (negsuc n) = 65535 - n

abbrev pub hour_bytes : HourlyWeather → List ℕ
hour_bytes h =
    bits16 h.temperature / 256
    ∷ bits16 h.temperature % 256
    ∷ h.humidity
    ∷ h.precip_prob
    ∷ h.weather_code
    ∷ h.wind_speed
    ∷ []

abbrev pub hours_bytes : ℕ → (ℕ → HourlyWeather) → ℕ → List ℕ
hours_bytes zero hours i = []
hours_bytes (suc n) hours i = hour_bytes (hours i) ++ hours_bytes n hours (i + 1)

abbrev pub weather_bytes : WeatherSync → List ℕ
weather_bytes s = word_bytes s.expires_at ++ hours_bytes 24 s.hourly_today 0

-- The temperature fits 16 bits.
abbrev pub Fits : ℤ → Type 0
Fits (pos n) = n < 32768
Fits (negsuc n) = n < 32768

int16-bits16 : (t : ℤ) → Fits t → int16 (bits16 t) ≡ t
int16-bits16 (pos n) h = ground arith
int16-bits16 (negsuc n) h = ground arith

halves : (n : ℕ) → bit_or (n / 256 * 256) (n % 256) ≡ n
halves n =
    bit_or-sum 8 (n / 256) (n / 256 * 256) (n % 256) (omega arith) (omega arith) ∙ omega arith

word_digits :
    (a b c d : ℕ)
    → a < 256
    → b < 256
    → c < 256
    → d < 256
    → word a b c d ≡ ((a * 256 + b) * 256 + c) * 256 + d
word_digits a b c d ha hb hc hd =
    ap (λ t. bit_or (bit_or t (u32 (c * 256))) d)
      (bit_or-sum 24 a (u32 (a * 16777216)) (u32 (b * 65536)) (omega arith) (omega arith))
    ∙ ap (λ t. bit_or t d)
        (bit_or-sum 16 (a * 256 + b) (u32 (a * 16777216) + u32 (b * 65536)) (u32 (c * 256))
          (omega arith) (omega arith))
    ∙ bit_or-sum 8 ((a * 256 + b) * 256 + c) (u32 (a * 16777216) + u32 (b * 65536) + u32 (c * 256))
        d (omega arith) (omega arith)
    ∙ omega arith

pub word_lem :
    (e : ℕ) → e < 4294967296 → word (e / 16777216) (e / 65536 % 256) (e / 256 % 256) (e % 256) ≡ e
word_lem e h =
    word_digits (e / 16777216) (e / 65536 % 256) (e / 256 % 256) (e % 256) (omega arith)
      (omega arith) (omega arith) (omega arith)
    ∙ omega arith

nth-read : (b : ℕ → ℕ) (k i n : ℕ) → k < n → nth k (read b i n) ≡ b (i + k)
nth-read b k i zero h = absurd (omega arith)
nth-read b zero i (suc n) h = ap b (omega arith)
nth-read b (suc k) i (suc n) h = nth-read b k (i + 1) n (omega arith) ∙ ap b (omega arith)

byte_of :
    (b : ℕ → ℕ) (i n : ℕ) (xs : List ℕ) (k : ℕ) → read b i n ≡ xs → k < n → b (i + k) ≡ nth k xs
byte_of b i n xs k e h = sym (nth-read b k i n h) ∙ ap (nth k) e

hour_lem :
    (b : ℕ → ℕ) (i : ℕ) (h : HourlyWeather)
    → read b i 6 ≡ hour_bytes h
    → Fits h.temperature
    → hour_at b i ≡ h
hour_lem b i h e f =
    let byte : (k : ℕ) → k < 6 → b (i + k) ≡ nth k (hour_bytes h) =
      (λ k l. byte_of b i 6 (hour_bytes h) k e l) in
    let word16 : bit_or (b i * 256) (b (i + 1)) ≡ bits16 h.temperature =
      ap₂ (λ x y. bit_or (x * 256) y) (ap b (omega arith) ∙ byte 0 (omega arith))
        (byte 1 (omega arith))
      ∙ halves (bits16 h.temperature) in
    rw (
      word16,
      int16-bits16 h.temperature f,
      byte 2 (omega arith),
      byte 3 (omega arith),
      byte 4 (omega arith),
      byte 5 (omega arith),
    )

hours_lem :
    (n : ℕ) (b : ℕ → ℕ) (i idx : ℕ) (old hours : ℕ → HourlyWeather)
    → read b idx (n * 6) ≡ hours_bytes n hours i
    → ((j : ℕ) → Fits (hours j).temperature)
    → (j : ℕ)
    → ((j < i → hours_at n b i idx old j ≡ old j)
        × (i ≤ j → j < i + n → hours_at n b i idx old j ≡ hours j))
hours_lem zero b i idx old hours e f j = (λ l. refl, λ l k. absurd (omega arith))
hours_lem (suc n) b i idx old hours e f j =
    let (first, others, total) =
      read_split b idx (suc n * 6) (hour_bytes (hours i)) (hours_bytes n hours (i + 1)) e in
    let (before, inside) =
      hours_lem n b (i + 1) (idx + 6) (store old i (hour_at b idx)) hours
        (ap (read b (idx + 6)) (omega (arith, total)) ∙ others) f j in
    (
      λ l. before (omega arith) ∙ store_there old i j (hour_at b idx) (omega arith),
      λ l k. elim (ℕ_discrete j i) [
        | yes same ↦
            before (omega (arith, same))
            ∙ ap (store old i (hour_at b idx)) same
            ∙ store_here old i (hour_at b idx)
            ∙ hour_lem b idx (hours i) first (f i)
            ∙ ap hours (sym same)
        | no apart ↦ inside (omega arith) (omega arith)
      ],
    )

-- The table that is read says what the phone wrote.
hours_read :
    (b : ℕ → ℕ) (old hours : ℕ → HourlyWeather)
    → read b 4 144 ≡ hours_bytes 24 hours 0
    → ((j : ℕ) → Fits (hours j).temperature)
    → read (hours_at 24 b 0 4 old) 0 24 ≡ read hours 0 24
hours_read b old hours e f =
    read_agree (hours_at 24 b 0 4 old) hours 0 24
      (λ j l k. (hours_lem 24 b 0 4 old hours e f j).1 l k)

word-read :
    (b : ℕ → ℕ) (e : ℕ)
    → read b 0 4 ≡ word_bytes e
    → e < 4294967296
    → word (b 0) (b 1) (b 2) (b 3) ≡ e
word-read b e h l = rw (ap (nth 0) h, ap (nth 1) h, ap (nth 2) h, ap (nth 3) h) (word_lem e l)

module _ {ℓ} {W : Type ℓ} where
  -- A message with the time in seconds, in four bytes with the highest first, is published as that
  -- time, and the answer is that of `event_publish`.
  pub time_arrives :
      (o : Outside W) (m : Msg) (p : Parser) (w : W) (e : ℕ)
      → m.hdr.opcode ≡ 1
      → m.hdr.len ≡ time_size
      → read m.payload 0 time_size ≡ word_bytes e
      → e < 4294967296
      → handle_ble_response o (some m) p w ≡ tell o (time_sync e) p w
  unfolding handle_ble_response
  time_arrives o m p w e op len h l =
      rw (op, len) (ap (λ t. tell o (time_sync t) p w) (word-read m.payload e h l))

  -- A message with the weather as the phone writes it, the time in four bytes and then 24 times six
  -- bytes with the temperature in two's complement, is published as that weather, in all 24 hours, and
  -- the answer is that of `event_publish`; this for a time of 32 bits and temperatures of 16.
  pub weather_arrives :
      (o : Outside W) (m : Msg) (p : Parser) (w : W) (s : WeatherSync)
      → m.hdr.opcode ≡ 2
      → m.hdr.len ≡ weather_size
      → read m.payload 0 weather_size ≡ weather_bytes s
      → s.expires_at < 4294967296
      → ((j : ℕ) → Fits (s.hourly_today j).temperature)
      → (s' : WeatherSync) × (handle_ble_response o (some m) p w ≡ tell o (weather_sync s') p w)
        × (s'.expires_at ≡ s.expires_at)
        × (read s'.hourly_today 0 24 ≡ read s.hourly_today 0 24)
  unfolding handle_ble_response parse_weather_payload
  weather_arrives o m p w s op len h l f =
      let (head, rest, total) =
        read_split m.payload 0 weather_size (word_bytes s.expires_at)
          (hours_bytes 24 s.hourly_today 0) h in
      (
        weather_at m.payload o.weather_state,
        rw (op, len)
            (ap (λ r. r >>= λ t. tell o (weather_sync t) p w) (weather_run m o.weather_state)),
        word-read m.payload s.expires_at head l,
        hours_read m.payload o.weather_state.hourly_today s.hourly_today rest f,
      )

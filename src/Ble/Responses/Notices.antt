-- ===== src/Ble/Responses/Notices.antt =====
-- Notifications as the phone writes them, and what `handle_ble_response` reads of them.
use minimal_watch_firmware_e.Base.{
  ℕ, zero, suc, ◌+◌, ◌-◌, ◌≤◌, ◌<◌, ◌≡◌, ◌∙◌, refl, sym, ap, ap₂, true, some, List, [], ◌∷◌, ◌++◌,
  append-nil, arith, leb, min, take, tail, length, length-append, nth, read, read_split, read-copy,
  read-copy_extend, copy, ◌>>=◌,
}
use minimal_watch_firmware_e.Common.{Notification, app_name_size, body_size}
use minimal_watch_firmware_e.Ble.Message.{Msg, max_payload_size}
use minimal_watch_firmware_e.Ble.Multichunk.{Parser}
use minimal_watch_firmware_e.Ble.Responses.{
  Outside, Chars, notification_received, tell, notify, after_title, after_body, extract_lean_string,
  min_notification_size, parse_notification_payload, handle_ble_response,
}
use minimal_watch_firmware_e.Ble.Responses.Fields.{chars_kept, with_string, extract_run}
use minimal_watch_firmware_e.Ble.Responses.Returns.{notification_run}

-- A string behind its length.
abbrev pub text_bytes : List ℕ → List ℕ
text_bytes xs = length xs ∷ xs

-- As much of a string as fits `n` characters, and the byte that ends it.
abbrev pub shown : ℕ → List ℕ → List ℕ
shown n xs = take n xs ++ (0 ∷ [])

read-min : (b : ℕ → ℕ) (i n k c : ℕ) → c ≡ min n k → read b i c ≡ take k (read b i n)
read-min b i zero zero c e = ap (read b i) none_left
  where
    none_left : c ≡ 0
    none_left = omega (arith, e)
read-min b i zero (suc k) c e = ap (read b i) none_left
  where
    none_left : c ≡ 0
    none_left = omega (arith, e)
read-min b i (suc n) zero c e = ap (read b i) none_left
  where
    none_left : c ≡ 0
    none_left = omega (arith, e)
read-min b i (suc n) (suc k) c e =
    ap (read b i) one_less ∙ ap (λ r. b i ∷ r) (read-min b (i + 1) n k (min n k) refl)
  where
    one_less : c ≡ suc (min n k)
    one_less = omega (arith, e)

le→leb : (a b : ℕ) → a ≤ b → leb a b ≡ true
le→leb a b h = ground arith

-- What a string between others is.
record Stands (b : ℕ → ℕ) (i : ℕ) (xs rest : List ℕ) (n : ℕ) : Type 0 where
  len_byte : b i ≡ length xs
  chars : read b (i + 1) (length xs) ≡ xs
  behind : read b (i + 1 + length xs) (length rest) ≡ rest
  total : n ≡ 1 + length xs + length rest

text_bytes-Stands :
    (b : ℕ → ℕ) (i n : ℕ) (xs rest : List ℕ)
    → read b i n ≡ text_bytes xs ++ rest
    → Stands b i xs rest n
text_bytes-Stands b i n xs rest e =
    let (first, others, total') = read_split b i n (text_bytes xs) rest e in
    record {
      len_byte = ap (nth 0) first;
      chars = ap tail first;
      behind = ap (λ k. read b k (length rest)) (omega arith) ∙ others;
      total = omega (arith, total');
    }

extract_run_text :
    (m : Msg) (len i n : ℕ) (xs rest : List ℕ) (dest : Chars) (dest_max : ℕ)
    → Stands m.payload i xs rest n
    → len ≤ max_payload_size
    → i + n ≤ len
    → 0 < dest_max
    → dest_max ≤ 256
    → dest_max ≤ dest.size
    → extract_lean_string m len i dest dest_max
      ≡ some (true, i + 1 + length xs, with_string dest (take (dest_max - 1) xs))
extract_run_text m len i n xs rest dest dest_max t h k a b c =
    extract_run m len i dest dest_max h (omega (arith, t.len_byte, t.total)) a b c
    ∙ ap₂ (λ l ys. some (true, i + 1 + l, with_string dest ys)) t.len_byte
        (ap (λ l. read m.payload (i + 1) (chars_kept l dest_max)) t.len_byte
          ∙ read-min m.payload (i + 1) (length xs) (dest_max - 1) (chars_kept (length xs) dest_max)
              refl
          ∙ ap (take (dest_max - 1)) t.chars)

with_string_lem :
    (dest : Chars) (ys : List ℕ)
    → read (with_string dest ys).cells 0 (length (ys ++ (0 ∷ []))) ≡ ys ++ (0 ∷ [])
with_string_lem dest ys =
    ap (read (with_string dest ys).cells 0) (length-append ys (0 ∷ []))
    ∙ read-copy_extend (copy dest.cells 0 ys) (length ys) (0 ∷ [])
    ∙ ap (λ r. r ++ (0 ∷ [])) (read-copy dest.cells 0 ys)

-- `notification` with its title.
abbrev titled : Notification → ℕ → List ℕ → Notification
titled old app' name = record old {
  app = app';
  app_name =
      (with_string (record { size = app_name_size; cells = old.app_name }) (take 13 name)).cells;
}

-- `notification`, from a title and a body.
abbrev noted : Notification → ℕ → List ℕ → List ℕ → Notification
noted old app' name text = record old {
  app = app';
  app_name =
      (with_string (record { size = app_name_size; cells = old.app_name }) (take 13 name)).cells;
  body = (with_string (record { size = body_size; cells = old.body }) (take 99 text)).cells;
  action_handler = 0;
  dismiss_handler = 0;
}

abbrev pub notification_bytes : ℕ → List ℕ → List ℕ → List ℕ
notification_bytes app name text = app ∷ (text_bytes name ++ text_bytes text)

parse_lem :
    (m : Msg) (old : Notification) (app : ℕ) (name text : List ℕ)
    → m.hdr.len ≤ max_payload_size
    → min_notification_size ≤ m.hdr.len
    → read m.payload 0 m.hdr.len ≡ notification_bytes app name text
    → parse_notification_payload m m.hdr.len old ≡ some (true, noted old app name text)
parse_lem m old app name text h k e =
    let (first, rest, total') =
      read_split m.payload 0 m.hdr.len (app ∷ []) (text_bytes name ++ text_bytes text) e in
    let t =
      text_bytes-Stands m.payload 1 (length (text_bytes name ++ text_bytes text)) name
        (text_bytes text) rest in
    let u =
      text_bytes-Stands m.payload (1 + 1 + length name) (length (text_bytes text)) text []
        (t.behind ∙ sym (append-nil (text_bytes text))) in
    let title_taken =
      extract_run_text m m.hdr.len 1 (length (text_bytes name ++ text_bytes text)) name
        (text_bytes text) (record { size = app_name_size; cells = old.app_name }) 14 t h
        (omega (arith, total')) (omega arith) (omega arith) (omega arith) in
    let body_taken =
      extract_run_text m m.hdr.len (1 + 1 + length name) (length (text_bytes text)) text []
        (record { size = body_size; cells = old.body }) 100 u h (omega (arith, t.total, total'))
        (omega arith) (omega arith) (omega arith) in
    notification_run m m.hdr.len old _ k title_taken
    ∙ ap
        (λ a.
          after_title m m.hdr.len (record old { app = a })
            (
              true,
              1 + 1 + length name,
              with_string (record { size = app_name_size; cells = old.app_name }) (take 13 name),
            ))
        (ap (nth 0) first)
    ∙ ap (λ o. o >>= λ r. some (after_body (titled old app name) r)) body_taken

module _ {ℓ} {W : Type ℓ} where
  -- A message whose payload is an application, a title behind its length and a body behind its length,
  -- of at least five bytes and no more than a payload has, is published as the notification of that
  -- application with the title up to its 13th byte and the body up to its 99th, each ended by a zero,
  -- and no handlers; the answer is that of `event_publish`.
  pub notification_arrives :
      (o : Outside W) (m : Msg) (p : Parser) (w : W) (app : ℕ) (name text : List ℕ)
      → m.hdr.opcode ≡ 4
      → m.hdr.len ≤ max_payload_size
      → min_notification_size ≤ m.hdr.len
      → read m.payload 0 m.hdr.len ≡ notification_bytes app name text
      → (n : Notification) × (handle_ble_response o (some m) p w
          ≡ tell o (notification_received n) p w)
        × (n.app ≡ app)
        × (read n.app_name 0 (length (shown 13 name)) ≡ shown 13 name)
        × (read n.body 0 (length (shown 99 text)) ≡ shown 99 text)
        × (n.action_handler ≡ 0)
        × (n.dismiss_handler ≡ 0)
  unfolding handle_ble_response
  notification_arrives o m p w app name text op h k e = (
    noted o.notification app name text,
    simp (op, le→leb min_notification_size m.hdr.len k)
        (ap (λ r. r >>= notify o p w) (parse_lem m o.notification app name text h k e)),
    refl,
    with_string_lem (record { size = app_name_size; cells = o.notification.app_name })
        (take 13 name),
    with_string_lem (record { size = body_size; cells = o.notification.body }) (take 99 text),
    refl,
    refl,
  )

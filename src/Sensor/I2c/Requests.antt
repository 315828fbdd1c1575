-- ===== src/Sensor/I2c/Requests.antt =====
-- The requests of the I2C daemon at the node, and bytes that are no requests.
use embeded_linux_gateway.Prelude.{
  ℕ, zero, suc, ◌+◌, ◌%◌, ◌≤◌, ◌<◌, ◌≡◌, ◌≢◌, refl, ◌∙◌, ap, Bool, true, false, Option, none, some,
  List, [], ◌∷◌, ◌++◌, ℤ, ◌==◌, ltb, if◌then◌else◌, length, length-set, lt→ltb, ltb→lt, get_or, set,
  arith, inl, inr, Bool-cases,
}
use embeded_linux_gateway.I2c.Scan.{requests_cycle}
use embeded_linux_gateway.I2c.{Request, key_request, data_request, request, requests}
use embeded_linux_gateway.Sensor.I2c.{
  Slave, filled, keynode, key_data, end_word, receive_byte, receive_event, answer, request_event,
}

-- The bytes of a request, `requestkey` and `requestData` of the daemon.
unfoldable pub bytes_of : Request → List ℕ
bytes_of key_request = b'1' ∷ b'9' ∷ b'9' ∷ b'7' ∷ b'.' ∷ []
bytes_of data_request = b'd' ∷ b'a' ∷ b'*' ∷ []

-- The node between two words: at its first word the index is 0, later 1.
pub record IsBetween (s : Slave) : Type 0 where
  pub size : length s.key ≡ 6
  pub index : s.i ≤ 1
  pub word : s.receive_gw ≡ []

-- After a request of either kind.
abbrev pub after : Request → Slave
after key_request = record { key = filled; i = 1; flag = 0; receive_gw = [] }
after data_request = record { key = filled; i = 1; flag = 1; receive_gw = [] }

one :
    (r : Request) (k : List ℕ) (i f : ℕ)
    → length k ≡ 6
    → i ≤ 1
    → receive_event (bytes_of r) (record { key = k; i = i; flag = f; receive_gw = [] })
      ≡ some (after r)
unfolding receive_event receive_byte end_word bytes_of
one key_request (a ∷ b ∷ c ∷ d ∷ e ∷ g ∷ []) zero f h l = refl
one key_request (a ∷ b ∷ c ∷ d ∷ e ∷ g ∷ []) (suc zero) f h l = refl
one data_request (a ∷ b ∷ c ∷ d ∷ e ∷ g ∷ []) zero f h l = refl
one data_request (a ∷ b ∷ c ∷ d ∷ e ∷ g ∷ []) (suc zero) f h l = refl
one r k (suc (suc i)) f h l = absurd (omega arith)
one r _ i f h l = absurd (omega arith)

one_between :
    (r : Request) (s : Slave) → IsBetween s → receive_event (bytes_of r) s ≡ some (after r)
one_between r s h =
    ap (λ w. receive_event (bytes_of r) (record s { receive_gw = w })) h.word
    ∙ one r s.key s.i s.flag h.size h.index

after-IsBetween : (r : Request) → IsBetween (after r)
after-IsBetween key_request = record { size = refl; index = omega arith; word = refl }
after-IsBetween data_request = record { size = refl; index = omega arith; word = refl }

-- Requests one after the other.
unfoldable pub take_requests : List Request → Slave → Option Slave
take_requests [] s = some s
take_requests (r ∷ rs) s = elim (receive_event (bytes_of r) s) [
  | none ↦ none
  | some t ↦ take_requests rs t
]

take_requests-after :
    (r : Request) (rs : List Request) (s : Slave)
    → IsBetween s
    → take_requests (r ∷ rs) s ≡ some (after (get_or (r ∷ rs) (length rs) data_request))
unfolding take_requests
take_requests-after r [] s h = rw (take_requests, one_between r s h) refl
take_requests-after r (q ∷ rs) s h =
    rw (take_requests, one_between r s h) (take_requests-after q rs (after r) (after-IsBetween r))

length-requests : (n count : ℕ) → length (requests n count) ≡ n
unfolding requests request
length-requests zero count = refl
length-requests (suc n) count = ap suc (length-requests n ((count + 1) % 10))

turn_count : (n : ℕ) → (9 + 1 + n) % 10 ≡ n % 10
turn_count n = omega arith

module _ (show : ℤ → List ℕ) where
  answer-after :
      (b : Bool)
      → request_event show (after (if b then key_request else data_request))
        ≡ answer show (if b then keynode else key_data) ++ (b'\r' ∷ b'\n' ∷ [])
  unfolding request_event
  answer-after true = refl
  answer-after false = refl

  -- From a state between two words, the node takes the first requests of the daemon, of any number above 0,
  -- with all writes inside its array, and then answers with the number of a detected node if the requests
  -- but one are a multiple of 10, and else with the number for data.
  pub take_requests-requests :
      (n : ℕ) (s : Slave)
      → IsBetween s
      → (t : Slave) × (take_requests (requests (suc n) 9) s ≡ some t)
        × IsBetween t
        × (request_event show t
            ≡ answer show (if n % 10 == 0 then keynode else key_data) ++ (b'\r' ∷ b'\n' ∷ []))
  unfolding requests request
  take_requests-requests n s h =
      let rest = requests n 0 in
      let last : get_or (key_request ∷ rest) (length rest) data_request
          ≡ (if n % 10 == 0 then key_request else data_request) =
        ap (λ m. get_or (key_request ∷ rest) m data_request) (length-requests n 0)
        ∙ requests_cycle (suc n) n 9 (omega arith)
        ∙ ap (λ m. if m == 0 then key_request else data_request) (turn_count n) in
      (
        after (if n % 10 == 0 then key_request else data_request),
        take_requests-after key_request rest s h ∙ ap (λ r. some (after r)) last,
        after-IsBetween (if n % 10 == 0 then key_request else data_request),
        answer-after (n % 10 == 0),
      )

-- Bytes that end no word.
abbrev pub NoEnd : List ℕ → Type 0
NoEnd [] = Unit
NoEnd (c ∷ cs) = (c ≢ b'.') × (c ≢ b'*') × NoEnd cs

get_or-set : (k : List ℕ) (i c : ℕ) → i < length k → get_or (set k i c) i 0 ≡ c
get_or-set [] i c h = absurd (omega arith)
get_or-set (x ∷ k) zero c h = refl
get_or-set (x ∷ k) (suc i) c h = get_or-set k i c (omega arith)

receive_byte-inner :
    (c : ℕ) (s : Slave)
    → c ≢ b'.'
    → c ≢ b'*'
    → length s.key ≡ 6
    → s.i < 6
    → receive_byte c s
      ≡ some
          (record s { key = set s.key s.i c; i = s.i + 1; receive_gw = s.receive_gw ++ (c ∷ []) })
unfolding receive_byte
receive_byte-inner c s dot star size h =
    let got : get_or (set s.key s.i c) s.i 0 ≡ c = get_or-set s.key s.i c (omega arith) in
    let no_dot : (c == b'.') ≡ false = ground arith in
    let no_star : (c == b'*') ≡ false = ground arith in
    simp (receive_byte, got, no_dot, no_star, lt→ltb s.i 6 h) refl

receive_byte-full : (c : ℕ) (s : Slave) → ltb s.i 6 ≡ false → receive_byte c s ≡ none
unfolding receive_byte
receive_byte-full c s full = simp (receive_byte, full) refl

-- Bytes without '.' and '*' that are more than what is left of the array of 6 make the node write past its
-- end.
pub receive_event-NoEnd :
    (cs : List ℕ) (s : Slave)
    → NoEnd cs
    → length s.key ≡ 6
    → s.i ≤ 6
    → 6 < s.i + length cs
    → receive_event cs s ≡ none
unfolding receive_event
receive_event-NoEnd [] s h size inside over = absurd (omega arith)
receive_event-NoEnd (c ∷ cs) s h size inside over = elim (Bool-cases (ltb s.i 6)) [
  | inl room ↦
      rw (receive_event, receive_byte-inner c s h.0 h.1 size (ltb→lt s.i 6 room))
        (receive_event-NoEnd cs
          (record s { key = set s.key s.i c; i = s.i + 1; receive_gw = s.receive_gw ++ (c ∷ []) })
          h.2 (length-set s.key s.i c ∙ size) (omega (arith, ltb→lt s.i 6 room)) (omega arith))
  | inr full ↦ rw (receive_event, receive_byte-full c s full) refl
]

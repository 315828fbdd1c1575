-- ===== src/Sensor/Wifi/Joining/Attempts.antt =====
-- Which networks a client's lines make the node try, and whether it joins one.
use embeded_linux_gateway.Prelude.{
  ℕ, zero, suc, ltb, lt→ltb, true, false, none, ◌||◌, if◌then◌else◌, Bool, Bool-cases, inl, inr,
  ◌≤◌, ◌<◌, ◌≡◌, refl, ◌∙◌, ap, some, List, [], ◌∷◌, ◌++◌, length, length-append, length-replicate,
  replicate, overlay, c_string, drop, take, append-nil, arith,
}
use embeded_linux_gateway.Sensor.{c_string-zeros}
use embeded_linux_gateway.Sensor.Wifi.{credentials, set_up_wifi}
use embeded_linux_gateway.Sensor.Wifi.Credentials.{IsLine, IsName, credentials-line}
use embeded_linux_gateway.Sensor.Wifi.Publishing.{some_of, set_up_wifi_lem}
use embeded_linux_gateway.Sensor.Wifi.Joining.{
  Joining, read_line, join, split-overlay, split-length, IsHeld, overlay-longer,
}

-- A line of a client: the name and the password, what comes behind, and the answers of `WiFi.status()` after it.
pub record Attempt : Type 0 where
  pub ssid : List ℕ
  pub pass : List ℕ
  pub rest : List ℕ
  pub answers : ℕ → Bool

abbrev pub line_of : Attempt → List ℕ
line_of a = a.ssid ++ (b'.' ∷ a.pass ++ (b'\n' ∷ a.rest))

abbrev pub lines : List Attempt → List (List ℕ × (ℕ → Bool))
lines [] = []
lines (a ∷ more) = (line_of a, a.answers) ∷ lines more

-- Whether one of the 21 tests after the line succeeds.
unfoldable pub succeeds : Attempt → Bool
succeeds a = some_of 21 0 a.answers

-- The networks up to the first that is joined, after `old`, the latest first.
abbrev pub tried : List Attempt → List (List ℕ × List ℕ) → List (List ℕ × List ℕ)
tried [] old = old
tried (a ∷ more) old =
    let new = (a.ssid, a.pass) ∷ old in
    let later = tried more new in if succeeds a then new else later

abbrev pub any_succeeds : List Attempt → Bool
any_succeeds [] = false
any_succeeds (a ∷ more) = succeeds a || any_succeeds more

-- The names and passwords are shorter than `size`, and no name is shorter than the one before, which has `n`
-- characters.
abbrev pub Ascending : ℕ → ℕ → List Attempt → Type 0
Ascending size n [] = Unit
Ascending size n (a ∷ more) =
    IsName a.ssid
    × (length a.ssid < size)
    × IsLine a.pass
    × (length a.pass < size)
    × (n ≤ length a.ssid)
    × Ascending size (length a.ssid) more

behind-name :
    (n : ℕ) (prev : List ℕ) (m : ℕ)
    → length prev ≤ n
    → c_string (drop n (prev ++ replicate m 0)) ≡ []
behind-name n [] m h = c_string-zeros n m
behind-name zero (c ∷ prev) m h = absurd (omega arith)
behind-name (suc n) (c ∷ prev) m h = behind-name n prev m (omega arith)

-- What one line leaves in the arrays.
record Read (size : ℕ) (a : Attempt) (s : List ℕ × List ℕ) : Type 0 where
  name : c_string (credentials size (line_of a) s).0 ≡ a.ssid
  word : c_string (credentials size (line_of a) s).1 ≡ a.pass
  held : IsHeld (credentials size (line_of a) s).0 a.ssid
  word_size : length (credentials size (line_of a) s).1 ≡ 50

credentials-Read :
    (size : ℕ) (a : Attempt) (prev : List ℕ) (s : List ℕ × List ℕ)
    → size ≤ 50
    → IsName a.ssid
    → length a.ssid < size
    → IsLine a.pass
    → length a.pass < size
    → length prev ≤ length a.ssid
    → IsHeld s.0 prev
    → length s.1 ≡ 50
    → Read size a s
unfolding credentials
credentials-Read size a prev s fits name short word word_short longer h full =
    let whole : length s.0 ≡ 50 = omega (
      arith,
      ap length h.bytes,
      length-append prev (replicate h.rest 0),
      length-replicate {A = ℕ} h.rest 0,
      h.size,
    ) in
    let (n, w) =
      credentials-line size a.ssid a.pass a.rest s.0 s.1 fits whole full name short word in
    let none_left : c_string (drop (length a.ssid) s.0) ≡ [] =
      ap (λ l. c_string (drop (length a.ssid) l)) h.bytes
      ∙ behind-name (length a.ssid) prev h.rest longer in
    let (k, sum, bytes) = overlay-longer a.ssid prev h.rest longer (omega (arith, h.size)) in
    let ends : ltb (length a.pass) size ≡ true = lt→ltb (length a.pass) size word_short in
    record {
      name = n ∙ ap (λ l. a.ssid ++ l) none_left ∙ append-nil a.ssid;
      word = w ∙ ap (λ b. if b then a.pass else take size a.pass ++ c_string (drop size s.1)) ends;
      held = record {
        rest = k;
        size = omega (arith, sum, h.size);
        bytes =
            split-overlay size size [] a.ssid (a.pass ++ (b'\n' ∷ a.rest)) s.1 s.0 name short
              (omega (arith, whole))
            ∙ ap (overlay a.ssid) h.bytes
            ∙ bytes;
      };
      word_size = split-length size size 0 (line_of a) s ∙ full;
    }

answered : (a : Attempt) → set_up_wifi 21 0 a.answers ≡ some (succeeds a)
unfolding succeeds
answered a = set_up_wifi_lem a.answers

module _ (size : ℕ) where
  -- One line: the networks and the arrays after it, and whether the node goes on.
  join-line :
      (a : Attempt) (more : List Attempt) (s : Joining) (b : Bool)
      → succeeds a ≡ b
      → let t = read_line size (line_of a) s in
        join size (lines (a ∷ more)) s
        ≡ (if b then some (record t { connected = true }) else join size (lines more) t)
  unfolding join
  join-line a more s b h =
      let t = read_line size (line_of a) s in
      ap
        (λ x. elim x [
          | none ↦ none
          | some up ↦ if up then some (record t { connected = true }) else join size (lines more) t
        ])
        (answered a ∙ ap some h)

  read_line-begun :
      (a : Attempt) (s : Joining)
      → Read size a (s.ssid, s.pass)
      → (read_line size (line_of a) s).begun ≡ (a.ssid, a.pass) ∷ s.begun
  unfolding read_line
  read_line-begun a s r =
      ap (λ n. (n, c_string (credentials size (line_of a) (s.ssid, s.pass)).1) ∷ s.begun) r.name
      ∙ ap (λ w. (a.ssid, w) ∷ s.begun) r.word

  join-from :
      (more : List Attempt) (prev : List ℕ) (s : Joining)
      → size ≤ 50
      → Ascending size (length prev) more
      → IsHeld s.ssid prev
      → length s.pass ≡ 50
      → s.connected ≡ false
      → (t : Joining) × (join size (lines more) s ≡ some t)
        × (t.begun ≡ tried more s.begun)
        × (t.connected ≡ any_succeeds more)
  unfolding join read_line
  join-from [] prev s fits h held full off = (s, refl, refl, off)
  join-from (a ∷ more) prev s fits (name, short, word, word_short, longer, later) held full off =
      let r =
        credentials-Read size a prev (s.ssid, s.pass) fits name short word word_short longer held
          full in
      let t = read_line size (line_of a) s in
      let begun = read_line-begun a s r in
      elim (Bool-cases (succeeds a)) [
        | inl up ↦
            (record t { connected = true }, join-line a more s true up, rw up begun, rw up refl)
        | inr down ↦
            let (u, e, b, c) = join-from more a.ssid t fits later r.held r.word_size refl in
            (u, join-line a more s false down ∙ e, rw down (b ∙ ap (tried more) begun), rw down c)
      ]

  -- From a start with zeroed arrays, for lines with a name and a password that are shorter than `size`, and no
  -- name shorter than the one before: the node begins with exactly the networks of the lines, with the whole names and
  -- passwords and in their order, up to the first that it joins; and when the client has left, it has joined one
  -- exactly if one of them answered within 21 tests.
  pub join-tried :
      (more : List Attempt)
      → size ≤ 50
      → Ascending size 0 more
      → (t : Joining) × (join size
            (lines more)
            (record { ssid = replicate 50 0; pass = replicate 50 0; begun = []; connected = false })
          ≡ some t)
        × (t.begun ≡ tried more [])
        × (t.connected ≡ any_succeeds more)
  join-tried more fits h =
      join-from more []
        (record { ssid = replicate 50 0; pass = replicate 50 0; begun = []; connected = false })
        fits h (record { rest = 50; size = refl; bytes = refl }) refl refl

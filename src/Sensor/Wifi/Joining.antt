-- ===== src/Sensor/Wifi/Joining.antt =====
-- The lines of a client until the node has joined a network.
pub mod Attempts
use embeded_linux_gateway.Prelude.{
  ℕ, zero, suc, ltb, lt→ltb, true, false, if◌then◌else◌, Bool, Bool-cases, inl, inr, ◌+◌, ◌≤◌, ◌<◌,
  ◌≡◌, ◌≢◌, refl, sym, ◌∙◌, ap, Option, none, some, List, [], ◌∷◌, ◌++◌, append_assoc, append-nil,
  ◌==◌, get_or, set, set-append, length-set, get_or-append, length, length-append, replicate,
  overlay, c_string, c_string-append, NoNul, drop, take, arith,
}
use embeded_linux_gateway.Sensor.{c_string-zeros}
use embeded_linux_gateway.Sensor.Wifi.{copy_pass, split, credentials, set_up_wifi}
use embeded_linux_gateway.Sensor.Wifi.Credentials.{IsLine, IsName, credentials-line}
use embeded_linux_gateway.Sensor.Wifi.Publishing.{some_of, set_up_wifi_lem}

-- The arrays `ssid` and `pass`, what `WiFi.begin` was given, the latest first, and whether the node has joined.
pub record Joining : Type 0 where
  pub ssid : List ℕ
  pub pass : List ℕ
  pub begun : List (List ℕ × List ℕ)
  pub connected : Bool

-- A line, and the network that it makes the node begin with; `size` is `sizeof(temp)`.
unfoldable pub read_line : ℕ → List ℕ → Joining → Joining
read_line size temp s =
    let (ssid, pass) = credentials size temp (s.ssid, s.pass) in
    record {
      ssid = ssid;
      pass = pass;
      begun = (c_string ssid, c_string pass) ∷ s.begun;
      connected = false;
    }

-- `while(client.connected())` on the lines that come until the client leaves, each with the answers of
-- `WiFi.status()`.
unfoldable pub join : ℕ → List (List ℕ × (ℕ → Bool)) → Joining → Option Joining
unfolding read_line
join size [] s = some s
join size ((temp, answers) ∷ later) s =
    let t = read_line size temp s in
    let rest = join size later t in
    elim (set_up_wifi 21 0 answers) [
      | none ↦ none
      | some up ↦ if up then some (record t { connected = true }) else rest
    ]

-- The array for the name, with `old` from the character behind `xs` on.
pub split-overlay :
    (size n : ℕ) (xs ss tail pass old : List ℕ)
    → IsName ss
    → length ss < n
    → n ≤ length old
    → (split size n (length xs) (xs ++ (ss ++ (b'.' ∷ tail))) (xs ++ old, pass)).0
      ≡ xs ++ overlay ss old
unfolding split
split-overlay size zero xs ss tail pass old g f l = absurd (omega arith)
split-overlay size (suc n) xs ss tail pass [] g f l = absurd (omega arith)
split-overlay size (suc n) xs [] tail pass (o ∷ old) g f l =
    rw (split, get_or-append xs tail b'.' 0) refl
split-overlay size (suc n) xs (c ∷ ss) tail pass (o ∷ old) g f l =
    let no_end : (c == b'\n') ≡ false = ground (arith, g.1) in
    let no_dot : (c == b'.') ≡ false = ground (arith, g.2) in
    let more = xs ++ (c ∷ []) in
    let count : length xs + 1 ≡ length more = sym (length-append xs (c ∷ [])) in
    let shift : xs ++ (c ∷ ss ++ (b'.' ∷ tail)) ≡ more ++ (ss ++ (b'.' ∷ tail)) =
      sym (append_assoc xs (c ∷ []) (ss ++ (b'.' ∷ tail))) in
    let stored : xs ++ (c ∷ old) ≡ more ++ old = sym (append_assoc xs (c ∷ []) old) in
    rw
      (
        split,
        get_or-append xs (ss ++ (b'.' ∷ tail)) c 0,
        no_end,
        no_dot,
        set-append xs old o c,
        count,
        shift,
        stored,
      )
      (split-overlay size n more ss tail pass old g.3 (omega arith) (omega arith)
        ∙ append_assoc xs (c ∷ []) (overlay ss old))

copy_pass-length :
    (n k j : ℕ) (temp pass : List ℕ) → length (copy_pass n k j temp pass) ≡ length pass
unfolding copy_pass
copy_pass-length zero k j temp pass = refl
copy_pass-length (suc n) k j temp pass =
    let c = get_or temp (k + j + 1) 0 in
    elim (Bool-cases (c == b'\n')) [
      | inl ends ↦ rw (copy_pass, ends) (length-set pass k 0)
      | inr on ↦
          rw (copy_pass, on)
            (copy_pass-length n (k + 1) j temp (set pass k c) ∙ length-set pass k c)
    ]

pub split-length :
    (size n j : ℕ) (temp : List ℕ) (s : List ℕ × List ℕ)
    → length (split size n j temp s).1 ≡ length s.1
unfolding split
split-length size zero j temp s = refl
split-length size (suc n) j temp (ssid, pass) =
    let c = get_or temp j 0 in
    elim (Bool-cases (c == b'.')) [
      | inl ends ↦ rw (split, ends) (copy_pass-length size 0 j temp pass)
      | inr on ↦
          rw (split, on)
            (split-length size n (j + 1) temp (set ssid j (if c == b'\n' then 0 else c), pass))
    ]

-- The array holds a name, and zeros behind it.
pub record IsHeld (array name : List ℕ) : Type 0 where
  pub rest : ℕ
  pub size : length name + rest ≡ 50
  pub bytes : array ≡ name ++ replicate rest 0

pub overlay-longer :
    (new old : List ℕ) (m : ℕ)
    → length old ≤ length new
    → length new ≤ length old + m
    → (k : ℕ) × (length new + k ≡ length old + m)
      × (overlay new (old ++ replicate m 0) ≡ new ++ replicate k 0)
overlay-longer [] [] m h g = (m, refl, refl)
overlay-longer [] (y ∷ old) m h g = absurd (omega arith)
overlay-longer (x ∷ new) [] zero h g = absurd (omega arith)
overlay-longer (x ∷ new) [] (suc m) h g =
    let (k, sum, same) = overlay-longer new [] m (omega arith) (omega arith) in
    (k, omega arith, ap (λ l. x ∷ l) same)
overlay-longer (x ∷ new) (y ∷ old) m h g =
    let (k, sum, same) = overlay-longer new old m (omega arith) (omega arith) in
    (k, omega arith, ap (λ l. x ∷ l) same)

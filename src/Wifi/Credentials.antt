-- ===== src/Wifi/Credentials.antt =====
-- When the station connects, and with which bytes.
use esp32cam.Base.{
  ℕ, ◌+◌, ◌*◌, ◌^◌, ◌≡◌, ◌<◌, ◌⊎◌, inl, inr, refl, ap, sym, subst, arith, List, Bool, true, false,
  ◌&&◌, some, if◌then◌else◌, Bool-cases, Option-cases, get_or,
}
use esp32cam.Module.{Result, is_ok}
use esp32cam.Module.Description.{ParameterDescription}
use esp32cam.Module.Parameter.{MemoryProvider, World}
use esp32cam.Module.ModuleBase.{System}
use esp32cam.Wifi.{Driver, Credential, Wireless, u32_as_bytes, is_valid}
use esp32cam.Wifi.Sta.{connect, connect_if_asked, fetch_credentials, try_fetch_connect}

-- The four bytes of an address, the highest first, make up the address.
pub u32_as_bytes_lem :
    (n : ℕ)
    → n < 2 ^ 32
    → let byte = λ (i : ℕ). get_or (u32_as_bytes n) i 0 in
      (byte 0 * 2 ^ 24 + byte 1 * 2 ^ 16 + byte 2 * 2 ^ 8 + byte 3 ≡ n)
      × (byte 0 < 256)
      × (byte 1 < 256)
      × (byte 2 < 256)
      × (byte 3 < 256)
unfolding u32_as_bytes
u32_as_bytes_lem n h = (omega arith, omega arith, omega arith, omega arith, omega arith)

module _ {S N : Type 0} (ds : List ParameterDescription) (provider : MemoryProvider S)
    (driver : Driver N) where
  -- The credentials and parameters with which a call goes on: those of its start, if the credentials
  -- are valid, or else those that have been fetched with success.
  abbrev pub Given : System S (Wireless N) → Credential → World S → Type 0
  Given w c p =
      ((is_valid w.rest.credentials ≡ true) × (c ≡ w.rest.credentials) × (p ≡ w.parameters))
      ⊎ ((is_valid w.rest.credentials ≡ false)
          × ((r : Result × Credential × World S) × (fetch_credentials ds provider driver
                  w.rest.credentials w.parameters
                ≡ some r)
              × (is_ok r.0 ≡ true)
              × (c ≡ r.1)
              × (p ≡ r.2)))

  -- The state after an attempt on the credentials `c` from the network `n`: these are valid and stay,
  -- and there is a connection with them, if they ask for one.
  abbrev pub Attempted : Credential → World S → N → Bool → System S (Wireless N) → Type 0
  Attempted c p n b x =
      let (connected, after) = connect ds provider driver c n in
      (is_valid c ≡ true)
      × (x.rest.credentials ≡ c)
      × (x.parameters ≡ p)
      × (b ≡ (if c.autoconnect then connected else true))
      × (x.rest.network ≡ (if c.autoconnect then after else n))

  attempted_lem :
      (w : System S (Wireless N))
      → is_valid w.rest.credentials ≡ true
      → let (b, x) = connect_if_asked ds provider driver w in
        Attempted w.rest.credentials w.parameters w.rest.network b x
  unfolding connect_if_asked
  attempted_lem w valid = elim (Bool-cases w.rest.credentials.autoconnect) [
    | inl asked ↦ (
      valid,
      ground (arith, asked),
      ground (arith, asked),
      ground (arith, asked),
      ground (arith, asked),
    )
    | inr unasked ↦ (
      valid,
      ground (arith, unasked),
      ground (arith, unasked),
      ground (arith, unasked),
      ground (arith, unasked),
    )
  ]

  -- `tryFetchConnect` connects only with credentials that are valid and ask for it. Either it goes on
  -- with the credentials of the start, if these are valid, or with those that have been fetched with
  -- success and are valid: it leaves them, and returns what one call of `wifiStaConnect` for them
  -- returns, or true and no call if they do not ask for a connection. Or the credentials of the start
  -- are not valid, it returns false, and the network is as it was.
  pub try_fetch_connect_lem :
      (w x : System S (Wireless N)) (b : Bool)
      → try_fetch_connect ds provider driver w ≡ some (b, x)
      → ((c : Credential) × (p : World S) × Given w c p × Attempted c p w.rest.network b x)
        ⊎ ((is_valid w.rest.credentials ≡ false) × (b ≡ false) × (x.rest.network ≡ w.rest.network))
  unfolding try_fetch_connect
  try_fetch_connect_lem w x b h = elim (Bool-cases (is_valid w.rest.credentials)) [
    | inl valid ↦
        let e : connect_if_asked ds provider driver w ≡ (b, x) = ground (arith, valid, h) in
        inl (
          w.rest.credentials,
          w.parameters,
          inl (valid, refl, refl),
          subst
              (λ (r : Bool × System S (Wireless N)).
                Attempted w.rest.credentials w.parameters w.rest.network r.0 r.1)
              e (attempted_lem w valid),
        )
    | inr invalid ↦
        elim (Option-cases (fetch_credentials ds provider driver w.rest.credentials w.parameters)) [
          | inl stopped ↦ absurd (ground (arith, invalid, stopped, h))
          | inr (r, fetched) ↦
              let y : System S (Wireless N) = record {
                parameters = r.2;
                rest = record { credentials = r.1; network = w.rest.network };
              } in
              elim (Bool-cases (is_ok r.0 && is_valid r.1)) [
                | inl good ↦
                    let e : connect_if_asked ds provider driver y ≡ (b, x) =
                      ground (arith, invalid, fetched, good, h) in
                    inl (
                      r.1,
                      r.2,
                      inr (invalid, (r, fetched, ground (arith, good), refl, refl)),
                      subst
                          (λ (q : Bool × System S (Wireless N)).
                            Attempted r.1 r.2 w.rest.network q.0 q.1)
                          e (attempted_lem y (ground (arith, good))),
                    )
                | inr bad ↦
                    let e : (false, y) ≡ (b, x) = ground (arith, invalid, fetched, bad, h) in
                    inr (
                      invalid,
                      sym (ap (λ (q : Bool × System S (Wireless N)). q.0) e),
                      sym (ap (λ (q : Bool × System S (Wireless N)). q.1.rest.network) e),
                    )
              ]
        ]
  ]

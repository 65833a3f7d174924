-- ===== src/Esim/Provider/Airalo/Token.antt =====
-- What the adapter's token cache does over any sequence of calls.
use aerial_ran_platform.Base.{
  ℕ, ◌+◌, ◌<◌, String, Bool, true, not, ◌&&◌, Option, none, some, ◌≡◌, ◌≢◌, ◌⊎◌, inl, inr, refl,
  arith, Bool-cases, ltb, str_eq, eq_iff,
}
use aerial_ran_platform.Go.Errors.{Err}
use aerial_ran_platform.Go.Exec.{Result, ok, err, Outcome, Leads}
use aerial_ran_platform.Esim.Provider.Airalo.{
  Network, Airalo, HttpReply, TokenData, margin, later, is_success, decoded_as, is_fresh, granted,
  token_answer, token_request, token,
}

module _ {S N : Type 0} (net : Network S N) (client_id client_secret : String) where
  -- The token in store, used with nothing sent: more than five minutes of it are left.
  pub record Reused (a : Airalo N) (t : String) (a' : Airalo N) : Type 0 where
    pub kept : a' ≡ a
    pub stored : t ≡ a.access_token
    pub present : t ≢ ""
    pub unexpired : net.clock a.network + margin < a.expires_at

  -- A token that the API granted to one request, and its time.
  pub record Renewed (a : Airalo N) (t : String) (a' : Airalo N) : Type 0 where
    pub reply : HttpReply
    pub grant : TokenData
    pub asked :
        net.send (token_request net client_id client_secret) a.network ≡ (ok reply, a'.network)
    pub success : is_success reply ≡ true
    pub read : net.decode_token reply.text ≡ some grant
    pub stored : (t ≡ grant.access_token) × (a'.access_token ≡ grant.access_token)
    pub until : a'.expires_at ≡ later (net.clock a'.network) grant.expires_in

  -- The token and its time as they were.
  pub record SameToken (a a' : Airalo N) : Type 0 where
    pub access_token : a'.access_token ≡ a.access_token
    pub expires_at : a'.expires_at ≡ a.expires_at

  granted-Outcome :
      (a : Airalo N) (reply : HttpReply) (n : N) (d : Option TokenData)
      → net.send (token_request net client_id client_secret) a.network ≡ (ok reply, n)
      → is_success reply ≡ true
      → net.decode_token reply.text ≡ d
      → Outcome
          (Renewed a)
          (λ e a'. SameToken a a')
          (granted net client_id client_secret (decoded_as d) (record a { network = n }))
  granted-Outcome a reply n none asked success read = record {
    access_token = refl;
    expires_at = refl;
  }
  granted-Outcome a reply n (some t) asked success read = record {
    reply = reply;
    grant = t;
    asked = asked;
    success = success;
    read = read;
    stored = (refl, refl);
    until = refl;
  }

  answered-Outcome :
      (a : Airalo N) (x : Result (Err S) HttpReply × N)
      → net.send (token_request net client_id client_secret) a.network ≡ x
      → Outcome (Renewed a) (λ e a'. SameToken a a') (token_answer net client_id client_secret x a)
  answered-Outcome a (err e, n) asked = record { access_token = refl; expires_at = refl }
  answered-Outcome a (ok r, n) asked = elim (Bool-cases (is_success r)) [
    | inl e ↦ rw e (granted-Outcome a r n (net.decode_token r.text) asked e refl)
    | inr e ↦ rw e (record { access_token = refl; expires_at = refl })
  ]

  widen :
      (a : Airalo N) (x : Result (Err S) String × Airalo N)
      → Outcome (Renewed a) (λ e a'. SameToken a a') x
      → Outcome (λ t a'. Reused a t a' ⊎ Renewed a t a') (λ e a'. SameToken a a') x
  widen a (ok t, a') h = inr h
  widen a (err e, a') h = h

  -- A token that is returned is either the one in store, with nothing sent and more than five
  -- minutes of it left, or one that the API has just granted, which is then in store with its
  -- time; when no token is returned, the one in store and its time are as they were.
  pub token_outcome :
      (a : Airalo N)
      → Leads
          (λ t a'. Reused a t a' ⊎ Renewed a t a')
          (λ e a'. SameToken a a')
          (token net client_id client_secret)
          a
  unfolding token
  token_outcome a = elim (Bool-cases (is_fresh net client_id client_secret a)) [
    | inl e ↦ record {
      at = rw e (
          inl (record {
            kept = refl;
            stored = refl;
            present = named a.access_token _ e;
            unexpired = in_time (str_eq a.access_token "") _ _ e;
          }));
    }
    | inr e ↦ record { at = rw e (widen a _ (answered-Outcome a _ refl)) }
  ]
    where
      named : (s : String) (b : Bool) → not (str_eq s "") && b ≡ true → s ≢ ""
      named s b h e = ground (arith, eq_iff s "")

      in_time : (b : Bool) (m n : ℕ) → not b && ltb m n ≡ true → m < n
      in_time b m n h = ground arith

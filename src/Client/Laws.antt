-- ===== src/Client/Laws.antt =====
-- What an attributed address can be (internal/platform/clientip/clientip.go).
use tenant_api_platform.Prelude.{ℕ, true, false, some, List, [], ◌∷◌, ◌++◌, ◌≡◌, refl, ◌∙◌, All}
use tenant_api_platform.Prelude.Runes.{Runes}
use tenant_api_platform.Client.{
  Net, Forwarding, is_trusted, host_only, entries_of, reversed_onto, xff_chain,
  parse_forwarded_address, walk, client_ip,
}

reversed_onto-append :
    (xs ys acc : List Runes)
    → reversed_onto (xs ++ ys) acc ≡ reversed_onto ys (reversed_onto xs acc)
reversed_onto-append [] ys acc = refl
reversed_onto-append (x ∷ xs) ys acc = reversed_onto-append xs ys (x ∷ acc)

module _ (net : Net) (trusted : List ℕ) where
  -- The entry of a proxy that is trusted.
  abbrev pub Passes : Runes → Type 0
  Passes raw =
      (ip : Runes) × (parse_forwarded_address net raw ≡ some ip)
      × (is_trusted net trusted ip ≡ true)

  walk-past :
      (peer : Runes) (nearer chain : List Runes)
      → All Passes nearer
      → walk net trusted peer (reversed_onto nearer chain) ≡ walk net trusted peer chain
  unfolding walk
  walk-past peer [] chain h = refl
  walk-past peer (x ∷ nearer) chain ((ip, e, k), hs) =
      walk-past peer nearer (x ∷ chain) hs ∙ rw (e, k) refl

  -- Behind a trusted peer, the attributed address is the last of the entries of the two headers, those
  -- of Forwarded behind those of X-Forwarded-For, that is not a trusted proxy's, where the entries
  -- after it all are and it reads as an address: what a client put in front of it does not matter.
  pub client_ip-nearest :
      (req : Forwarding) (front nearer : List Runes) (entry ip : Runes)
      → is_trusted net trusted (host_only net req.remote_addr) ≡ true
      → entries_of req.x_forwarded_for ++ entries_of req.forwarded ≡ front ++ entry ∷ nearer
      → All Passes nearer
      → parse_forwarded_address net entry ≡ some ip
      → is_trusted net trusted ip ≡ false
      → client_ip net trusted req ≡ ip
  unfolding client_ip xff_chain walk
  client_ip-nearest req front nearer entry ip peer h passes e k =
      rw (peer, h, reversed_onto-append front (entry ∷ nearer) [])
        (walk-past (host_only net req.remote_addr) nearer (entry ∷ reversed_onto front []) passes
          ∙ rw (e, k) refl)

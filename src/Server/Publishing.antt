-- ===== src/Server/Publishing.antt =====
-- Publications: who receives them, and what stops them.
use t2_bus.Base.{
  ℕ, ◌==◌, Bool, true, false, Bool-cases, ◌⊎◌, inl, inr, [], ◌∷◌, ◌++◌, List, length, Option, some,
  lookup, lookup-put, contains, contains-append, Distinct, ◌≡◌, refl, ap, arith,
}
use t2_bus.Text.{Text}
use t2_bus.Err.{Result, ok}
use t2_bus.Directory
use t2_bus.Directory.Matching.{get_subscribers-Distinct}
use t2_bus.Exec.{◌>>=◌}
use t2_bus.Protocol.{ProtocolServer, PubMsg}
use t2_bus.Server.{Core, Channel, enqueue, deliver, deliver_all, publish}
use t2_bus.Server.Delivery.{delivered, deliver_open}

-- The clients have open channels.
abbrev pub AllOpen : Core → List ℕ → Type 0
AllOpen s [] = Unit
AllOpen s (id ∷ ids) =
    ((c : Channel) × (lookup id s.senders ≡ some c) × (c.is_open ≡ true)) × AllOpen s ids

-- So have all of them but client 0, which has no channel.
abbrev pub AllOpenBut : Core → List ℕ → Type 0
AllOpenBut s [] = Unit
AllOpenBut s (id ∷ ids) =
    (((id == 0) ≡ true) ⊎ ((c : Channel) × (lookup id s.senders ≡ some c) × (c.is_open ≡ true)))
    × AllOpenBut s ids

pub unless_zero : {A : Type 0} {b : Bool} → (b ≡ true) ⊎ A → b ≡ false → A
unless_zero (inl e) f = absurd (cc (e, f))
unless_zero (inr a) f = a

pub not_later :
    (id x : ℕ) (ids rest : List ℕ)
    → contains id (ids ++ x ∷ rest) ≡ false
    → (contains id ids ≡ false) × ((id == x) ≡ false)
not_later id x ids rest d = ground (arith, contains-append id ids (x ∷ rest), d)

pub AllOpenBut→AllOpen :
    (s : Core) (ids : List ℕ) → contains 0 ids ≡ false → AllOpenBut s ids → AllOpen s ids
AllOpenBut→AllOpen s [] nz h = tt
AllOpenBut→AllOpen s (id ∷ ids) nz (h0, h) =
    (unless_zero h0 (ground arith), AllOpenBut→AllOpen s ids (ground arith) h)

-- The queue has grown by one copy of the publication, under some message id.
abbrev pub Received : PubMsg → Option Channel → Option Channel → Type 0
Received params before after =
    (c : Channel) × (k : ℕ) × (before ≡ some c)
    × (after ≡ some (enqueue c (record { id = k; content = ProtocolServer.publish params })))

-- What becomes of a channel: one copy for a receiver, nothing for anyone else.
abbrev pub Served : PubMsg → Bool → Option Channel → Option Channel → Type 0
Served params true before after = Received params before after
Served params false before after = after ≡ before

pub Served-by :
    {params : PubMsg} {before after : Option Channel} (b : Bool)
    → (b ≡ true → Received params before after)
    → (b ≡ false → after ≡ before)
    → Served params b before after
Served-by true f g = f refl
Served-by false f g = g refl

abbrev pub with_copy : PubMsg → Core → Channel → Channel
with_copy params s c =
    enqueue c (record { id = s.next_msg_id; content = ProtocolServer.publish params })

module _ (send_error : Text) (params : PubMsg) where
  -- Delivery to one client leaves the others' channels alone.
  pub AllOpen-delivered :
      (id : ℕ) (c : Channel) (s : Core) (ids : List ℕ)
      → contains id ids ≡ false
      → AllOpen s ids
      → AllOpen (delivered id c (ProtocolServer.publish params) s) ids
  AllOpen-delivered id c s [] new h = tt
  AllOpen-delivered id c s (j ∷ ids) new ((d, e, o), h) = (
    (d, ground (arith, lookup-put id j (with_copy params s c) s.senders), o),
    AllOpen-delivered id c s ids (ground arith) h,
  )

  pub AllOpenBut-delivered :
      (id : ℕ) (c : Channel) (s : Core) (ids : List ℕ)
      → contains id ids ≡ false
      → AllOpenBut s ids
      → AllOpenBut (delivered id c (ProtocolServer.publish params) s) ids
  AllOpenBut-delivered id c s [] new h = tt
  AllOpenBut-delivered id c s (j ∷ ids) new (h0, h) = (
    elim h0 [
      | inl z ↦ inl z
      | inr (d, e, o) ↦ inr (d, ground (arith, lookup-put id j (with_copy params s c) s.senders), o)
    ],
    AllOpenBut-delivered id c s ids (ground arith) h,
  )

  -- The state after a publication to open channels.
  unfoldable pub deliver_each : List ℕ → Core → Core
  deliver_each [] s = s
  deliver_each (id ∷ ids) s =
      deliver_each ids (deliver send_error id (ProtocolServer.publish params) s).1

  pub deliver_each_open :
      (id : ℕ) (ids : List ℕ) (c : Channel) (s : Core)
      → lookup id s.senders ≡ some c
      → c.is_open ≡ true
      → deliver_each (id ∷ ids) s
        ≡ deliver_each ids (delivered id c (ProtocolServer.publish params) s)
  unfolding deliver_each
  deliver_each_open id ids c s e o =
      ap (λ (x : Result ℕ × Core). deliver_each ids x.1)
        (deliver_open send_error id (ProtocolServer.publish params) s c e o)

  pub deliver_all_open :
      (ids : List ℕ) (s : Core)
      → contains 0 ids ≡ false
      → Distinct ids
      → AllOpen s ids
      → deliver_all send_error params ids s ≡ (ok tt, deliver_each ids s)
  unfolding deliver_all deliver_each ◌>>=◌
  deliver_all_open [] s nz d h = refl
  deliver_all_open (id ∷ ids) s nz d ((c, e, o), h) =
      let nonzero : (id == 0) ≡ false = ground arith in
      rw (nonzero) (
        rw (deliver_open send_error id (ProtocolServer.publish params) s c e o) (
          deliver_all_open ids (delivered id c (ProtocolServer.publish params) s) (ground arith) d.1
            (AllOpen-delivered id c s ids d.0 h)))

  -- A client outside the list keeps its channel.
  pub lookup-deliver_each_ne :
      (ids : List ℕ) (s : Core) (j : ℕ)
      → Distinct ids
      → AllOpen s ids
      → contains j ids ≡ false
      → lookup j (deliver_each ids s).senders ≡ lookup j s.senders
  unfolding deliver_each
  lookup-deliver_each_ne [] s j d h ne = refl
  lookup-deliver_each_ne (id ∷ ids) s j d ((c, e, o), h) ne =
      rw (deliver_each_open id ids c s e o) (
        ground (
          arith,
          lookup-deliver_each_ne ids (delivered id c (ProtocolServer.publish params) s) j d.1
              (AllOpen-delivered id c s ids d.0 h),
          lookup-put id j (with_copy params s c) s.senders,
        ))

  -- A client in the list receives one copy.
  pub deliver_each-Received :
      (ids : List ℕ) (s : Core) (j : ℕ)
      → Distinct ids
      → AllOpen s ids
      → contains j ids ≡ true
      → Received params (lookup j s.senders) (lookup j (deliver_each ids s).senders)
  unfolding deliver_each
  deliver_each-Received [] s j d h m = cc
  deliver_each-Received (id ∷ ids) s j d ((c, e, o), h) m =
      let s' = delivered id c (ProtocolServer.publish params) s in
      let h' = AllOpen-delivered id c s ids d.0 h in
      let at_j = lookup-put id j (with_copy params s c) s.senders in
      rw (deliver_each_open id ids c s e o) (elim (Bool-cases (j == id)) [
        | inl same ↦ (
          c,
          s.next_msg_id,
          ground (arith, e, same),
          ground (arith, same, at_j, lookup-deliver_each_ne ids s' j d.1 h'),
        )
        | inr other ↦
            let (b, k, before, after) = deliver_each-Received ids s' j d.1 h' (ground arith) in
            (b, k, ground (arith, at_j, before), after)
      ])

  directory-deliver_each :
      (ids : List ℕ) (s : Core)
      → Distinct ids
      → AllOpen s ids
      → (deliver_each ids s).directory ≡ s.directory
  unfolding deliver_each
  directory-deliver_each [] s d h = refl
  directory-deliver_each (id ∷ ids) s d ((c, e, o), h) =
      rw (deliver_each_open id ids c s e o)
        (directory-deliver_each ids _ d.1 (AllOpen-delivered id c s ids d.0 h))

  -- A publication whose subscribers are other clients than 0 and have open channels is answered
  -- with the number of the subscribers and leaves the directory alone; each subscriber's channel
  -- receives one copy, and everyone else's channel stays as it is.
  pub publish_reaches :
      (s : Core) (j : ℕ)
      → contains 0 (Directory.get_subscribers params.topic s.directory) ≡ false
      → AllOpen s (Directory.get_subscribers params.topic s.directory)
      → ((publish send_error params s).0
          ≡ ok (length (Directory.get_subscribers params.topic s.directory)))
        × ((publish send_error params s).1.directory ≡ s.directory)
        × Served params
            (contains j (Directory.get_subscribers params.topic s.directory))
            (lookup j s.senders)
            (lookup j (publish send_error params s).1.senders)
  unfolding publish ◌>>=◌
  publish_reaches s j nz h =
      let ids = Directory.get_subscribers params.topic s.directory in
      let d = get_subscribers-Distinct params.topic s.directory in
      rw (deliver_all_open ids s nz d h) (
        refl,
        directory-deliver_each ids s d h,
        Served-by (contains j ids) (deliver_each-Received ids s j d h)
            (lookup-deliver_each_ne ids s j d h),
      )

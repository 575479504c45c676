-- ===== src/Core/Sending.antt =====
-- What it means that messages were sent over a socket: the loops of vhci_tx.c and stub_tx.c.
use usbip.Base.{
  ℕ, ◌≡◌, ap, Bool, true, false, List, [], ◌∷◌, ◌++◌, Option, none, some, ◌⊎◌, inl, inr, ◌==◌,
}
use usbip.Core.Socket.{Socket}

-- `message` is what is sent for an entry, with the size that is expected; `none` where it cannot be
-- made.
module _ (net : Socket) {X : Type 0} (message : X → Option (List ℕ × ℕ)) where
  open net use {S, sendmsg}

  -- The message of an entry was handed to kernel_sendmsg, which sent all of it.
  abbrev pub SentOne : X → Option S → Option S → Type 0
  SentOne x t t' =
      (s : S) × (s' : S) × (bytes : List ℕ) × (size : ℕ) × (t ≡ some s)
      × (message x ≡ some (bytes, size))
      × (sendmsg s bytes ≡ (size, s'))
      × (t' ≡ some s')

  -- It could not be made or sent.
  abbrev pub NotSent : X → Option S → Type 0
  NotSent x t =
      (t ≡ none)
      ⊎ ((message x ≡ none)
          ⊎ ((s : S) × (bytes : List ℕ) × (size : ℕ) × (t ≡ some s)
              × (message x ≡ some (bytes, size))
              × (((sendmsg s bytes).0 == size) ≡ false)))

  -- The messages of all entries, one after the other.
  abbrev pub SentAll : List X → Option S → Option S → Type 0
  SentAll [] t t' = t' ≡ t
  SentAll (x ∷ xs) t t' = (u : Option S) × SentOne x t u × SentAll xs u t'

  -- One round of a sending loop, which goes on or not.
  abbrev pub Round : X → Bool → Option S → Option S → Type 0
  Round x true t t' = SentOne x t t'
  Round x false t t' = NotSent x t

  -- A sending loop over `xs`: it ends well, all were sent and none is left; or it fails at an entry
  -- that could not be sent, and those before it were sent.
  abbrev pub Sends : List X → Bool → List X → Option S → Option S → Type 0
  Sends xs ok left t t' =
      ((ok ≡ true) × (left ≡ []) × SentAll xs t t')
      ⊎ ((ok ≡ false)
          × ((before : List X) × (x : X) × (u : Option S) × (xs ≡ before ++ x ∷ left)
              × SentAll before t u
              × NotSent x u))

  pub Sends-cons :
      (x : X) (xs left : List X) (ok : Bool) (t u t' : Option S)
      → SentOne x t u
      → Sends xs ok left u t'
      → Sends (x ∷ xs) ok left t t'
  Sends-cons x xs left ok t u t' one (inl (k, l, all)) = inl (k, l, (u, one, all))
  Sends-cons x xs left ok t u t' one (inr (k, (before, y, v, e, some_sent, bad))) =
      inr (k, (x ∷ before, y, v, ap (◌∷◌ x) e, (u, one, some_sent), bad))

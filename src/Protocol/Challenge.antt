-- ===== src/Protocol/Challenge.antt =====
-- Challenges between the client's keys (client/client.c) and the server's `handle_challenge`.
use janken.Base.{
  ℕ, compare, ◌≡◌, ◌≢◌, refl, sym, ap, Bool, ◌||◌, Option, none, some, List, [], ◌∷◌, ◌++◌, arith,
  ◌==◌, if◌then◌else◌, if-false,
}
use janken.Message.Action
use janken.Message.{challenge, MsgChallenge, init_msg_buf, nxid, rejected}
use janken.Server.{Server, Ptr, done, find_id, chids, msg_send}
use janken.Server.Invite.{reply, handle_challenge}
use janken.Tree.{tdelete}
use janken.Server.Invite.Keys.{first_error, handle_challenge_unauthorized}
use janken.Client.{
  Client, goes, print, enqueue, name_of, challenged_by, inviting, w_none, w_cancel, w_accept,
}
use janken.Client.Receive
use janken.Client.Input.{
  UserCmd, own_challenge, key_cancel, challenge_user, key_waiting, handle_key,
}

abbrev pub says_yes : ℕ → Bool
says_yes key = key == b'y' || key == b'Y'

abbrev pub says_no : ℕ → Bool
says_no key = key == b'n' || key == b'N'

-- The answer that a key gives to a challenge.
abbrev pub answer_to : Client → MsgChallenge → (key : ℕ) → MsgChallenge
answer_to c m key = record {
  id1 = m.id1;
  id2 = c.gs.id;
  key = c.gs.key;
  chid = m.chid;
  action = if says_yes key then Action.accept else Action.reject;
}

module _ (c : Client) (m : MsgChallenge) where
  abbrev asked : Client
  asked = record (print c (challenged_by (name_of c m.id1))) {
    waiting_for = w_accept;
    gs = record c.gs { chid = m.chid; opponent_id = m.id1 };
  }

  -- The client after the answer.
  abbrev answered : (key : ℕ) → Client
  answered key = record (enqueue asked (init_msg_buf (challenge (answer_to c m key)))) {
    waiting_for = w_none;
  }

-- What is left of a challenge that is rejected: its first user is told, and it is taken out of the tree.
abbrev pub rejected_by : MsgChallenge → (p ch : Ptr) → Server → Server
rejected_by m p ch s = record (msg_send s (s.users p).fd (reply m rejected 0)) {
  ch_by_id = (tdelete compare (chids s) (chids s ch) s.ch_by_id).1;
}

abbrev invited : (id : ℕ) → List ℕ → Client → Client
invited id name c =
    record (print (enqueue c (own_challenge c.gs id Action.start)) (inviting name)) {
      waiting_for = w_cancel;
    }

challenge_user-invited :
    (id : ℕ) (name : List ℕ) (c : Client)
    → id ≢ c.gs.id
    → challenge_user id name c ≡ invited id name c
unfolding challenge_user
challenge_user-invited id name c ne = if-false {b = id == c.gs.id} _ _ (ground arith)

-- What the key that cancels sends.
abbrev pub cancel_of : Client → MsgChallenge
cancel_of c = record {
  id1 = c.gs.id;
  id2 = c.gs.opponent_id;
  key = c.gs.key;
  chid = 0;
  action = Action.cancel;
}

unknown_opponent :
    (c : Client) (s : Server) (p : Ptr)
    → find_id s c.gs.id ≡ some p
    → find_id s c.gs.opponent_id ≡ none
    → first_error s (cancel_of c) ≡ some nxid
unknown_opponent c s p e1 e2 = ground (arith, e1, e2)

-- The flaw of cancelling: the packet names the opponent of before, not the challenged user. On a client
-- that has had no opponent whom the server knows, the key that cancels has no effect on the server but an
-- error (NXID): the challenge stays.
pub cancel_fails :
    (c : Client) (id : ℕ) (name : List ℕ) (btab key : ℕ) (cmd : Option UserCmd) (fd : ℕ)
    (s : Server) (p : Ptr)
    → id ≢ c.gs.id
    → find_id s c.gs.id ≡ some p
    → find_id s c.gs.opponent_id ≡ none
    → (m : MsgChallenge) × (c' : Client) × (handle_key btab key cmd (challenge_user id name c)
        ≡ goes c')
      × (c'.sent ≡ (challenge_user id name c).sent ++ init_msg_buf (challenge m) ∷ [])
      × (m.action ≡ Action.cancel)
      × (m.id2 ≡ c.gs.opponent_id)
      × (handle_challenge fd m s ≡ done (msg_send s fd (reply m nxid 0)))
unfolding handle_key key_waiting key_cancel init_msg_buf
cancel_fails c id name btab key cmd fd s p ne e1 e2 =
    let e = challenge_user-invited id name c ne in
    (
      cancel_of c,
      key_cancel (invited id name c),
      ap (handle_key btab key cmd) e,
      ap (λ d. d.sent ++ init_msg_buf (challenge (cancel_of c)) ∷ []) (sym e),
      refl,
      refl,
      handle_challenge_unauthorized fd (cancel_of c) s nxid (unknown_opponent c s p e1 e2),
    )

-- ===== src/Server/Users.antt =====
-- Users come and go: `user_create`, `user_add`, `user_del_and_destroy`.
use janken.Base.{
  ℕ, zero, suc, ◌+◌, ◌-◌, ◌%◌, ◌^◌, compare, Option, none, some, List, leb, ◌==◌, if◌then◌else◌,
}
use janken.Text.{nickname_len, snprintf, nick_cmp}
use janken.Tree.{tsearch, tdelete}
use janken.Message.{uonline, MsgErr, me_ok, toomanyuser, jointwice, dupnick, me_other}
use janken.Server.{
  Server, User, Ptr, Run, done, ◌>>=◌, check, if_null, random_rest, set_user, ids, fds, nicks,
  find_id, find_fd, find_nick, max_user_count, uint16_max,
}

-- `random_key`: the second number chooses between the first and its complement.
unfoldable pub random_key : (ℕ → ℕ) → ℕ
random_key randoms =
    let ret = randoms 0 % 2 ^ 32 in if randoms 1 % 2 == 0 then 2 ^ 32 - 1 - ret else ret

-- What `user_create` makes of the memory that `xmalloc` gives: `fd` keeps what was there.
unfoldable pub fresh_user : User → List ℕ → (key : ℕ) → User
fresh_user old nickname key = record {
  nickname = snprintf old.nickname nickname_len nickname;
  id = 0;
  score = 0;
  state = uonline;
  fd = old.fd;
  key = key;
  chid = 0;
}

unfoldable pub user_create : List ℕ → Server → Ptr × Server
user_create nickname s =
    let p = s.next in
    let s' = record s { next = suc p; randoms = λ n. s.randoms (suc (suc n)) } in
    (p, set_user s' p (fresh_user (s.users p) nickname (random_key s.randoms)))

-- The rest of a round of the loop in `user_add` whose test lets it pass: the id and the fd are set,
-- and each `tsearch` must come back with the new user.
unfoldable pub enter_user : Ptr → (fd id : ℕ) → Server → Run Server
enter_user p fd id s =
    let s1 = set_user s p (record (s.users p) { id = id; fd = fd }) in
    let (r1, t1) = tsearch compare (ids s1) p s1.by_id in
    let (r2, t2) = tsearch compare (fds s1) p s1.by_fd in
    let (r3, t3) = tsearch nick_cmp (nicks s1) p s1.by_nick in
    check (r1 == p) (
      check (r2 == p) (
        check (r3 == p)
          (done (record s1 { by_id = t1; by_fd = t2; by_nick = t3; user_cnt = s1.user_cnt + 1 }))))

-- The loop over `_`: its test looks for `user->id`, which is 0 until `enter_user`.
unfoldable pub add_rounds : ℕ → Ptr → (fd id : ℕ) → Server → Run (Option Ptr × MsgErr × Server)
add_rounds zero p fd id s = done (none, me_other, s)
add_rounds (suc n) p fd id s =
    let again = add_rounds n p fd ((id + s.randoms 0) % uint16_max) (random_rest s) in
    if_null (find_id s (s.users p).id) (enter_user p fd id s >>= λ s'. done (some p, me_ok, s'))
      λ _. again

-- `user_add`: the user (NULL on an error), the error, and the state.
unfoldable pub user_add : (fd : ℕ) → List ℕ → Server → Run (Option Ptr × MsgErr × Server)
user_add fd nickname s0 =
    let (p, s) = user_create nickname s0 in
    if leb max_user_count s.user_cnt
    then done (none, toomanyuser, s)
    else if_null (find_fd s (s.users p).fd)
        (if_null (find_nick s (s.users p).nickname) (add_rounds 16 p fd (fd % uint16_max) s)
          λ _. done (none, dupnick, s))
        λ _. done (none, jointwice, s)

-- The part of `user_del_and_destroy` that runs where the user is found, at the node's pointer.
unfoldable pub remove_user : Ptr → Server → Run Server
remove_user p s =
    let (r1, t1) = tdelete compare (ids s) (s.users p).id s.by_id in
    let (r2, t2) = tdelete nick_cmp (nicks s) (s.users p).nickname s.by_nick in
    let (r3, t3) = tdelete compare (fds s) (s.users p).fd s.by_fd in
    check r1 (
      check r2
        (done (record s { by_id = t1; by_nick = t2; by_fd = t3; user_cnt = s.user_cnt - 1 })))

unfoldable pub user_del_and_destroy : Ptr → Server → Run Server
user_del_and_destroy user s = if_null (find_id s (s.users user).id) (done s) λ p. remove_user p s

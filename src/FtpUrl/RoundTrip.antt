-- ===== src/FtpUrl/RoundTrip.antt =====
-- The parts of a URL that was written from them.
use daobell.Prelude.{
  ℕ, suc, ◌^◌, ◌<◌, leb, le→leb, ◌==◌, ==_ne, ◌||◌, Bool, true, false, Bytes, codes, [], ◌∷◌, ◌++◌,
  length, length-append, take, take-append, drop, drop-append, drop-append_suc, take_all, some, All,
  ok, ◌≡◌, ◌≢◌, refl, sym, ◌∙◌, ap, arith, append_assoc,
}
use daobell.Pieces.{sub64}
use daobell.FtpUrl.{
  find_first, contains, slash_before, user_end, parse_domain, user_mode, parse_mode, parse_ftp_url,
}
use daobell.FtpUrl.Find.{find_first-append, find_last-append, slash_before-free, All-append}

-- The last part of a URL.
abbrev pub domain_text : (host port dir file : Bytes) → Bytes
domain_text host port dir file = host ++ (b':' ∷ (port ++ (b'/' ∷ (dir ++ b'/' ∷ file))))

parse_domain_lem :
    (user password host port dir file : Bytes)
    → All (λ x. (x == b':') ≡ false) host
    → All (λ x. (x == b'/') ≡ false) host
    → All (λ x. (x == b'/') ≡ false) port
    → All (λ x. (x == b'/') ≡ false) file
    → length (domain_text host port dir file) < 2 ^ 64
    → parse_domain user password (domain_text host port dir file) ≡ record {
      user = user;
      password = password;
      domain = host;
      port = port;
      path = b'/' ∷ dir;
      file = file;
    }
unfolding parse_domain
parse_domain_lem user password host port dir file hc hs ps fs bound =
    let is_slash : ℕ → Bool = λ c. c == b'/' in
    let text = domain_text host port dir file in
    let front = host ++ b':' ∷ port in
    let tail = b'/' ∷ (dir ++ b'/' ∷ file) in
    let assoc : front ++ tail ≡ text = append_assoc host (b':' ∷ port) tail in
    let slash : find_first is_slash text ≡ some (length front) =
      ap (find_first is_slash) (sym assoc)
      ∙ find_first-append is_slash front (dir ++ b'/' ∷ file) b'/'
          (All-append _ host (b':' ∷ port) hs (refl, ps)) refl in
    let colon = find_first-append (λ c. c == b':') host (port ++ tail) b':' hc refl in
    let behind : drop (length front) text ≡ tail =
      ap (drop (length front)) (sym assoc) ∙ drop-append front tail in
    let size : sub64 (length front) (suc (length host)) ≡ length port =
      omega (
        arith,
        bound,
        length-append host (b':' ∷ port),
        length-append front tail,
        ap length assoc,
      ) in
    rw
      (
        slash,
        colon,
        behind,
        find_last-append b'/' (b'/' ∷ dir) file fs,
        take-append host (b':' ∷ (port ++ tail)),
        drop-append_suc (length host) host b':' (port ++ tail) refl,
        size,
        take-append port tail,
        take-append dir (b'/' ∷ file),
        drop-append_suc (length dir) dir b'/' file refl,
      )
      refl

contains-front : (s : Bytes) → contains (codes "ftp://") (codes "ftp://" ++ s) ≡ true
unfolding contains
contains-front s = refl

find_first-colon :
    (s : Bytes) → find_first (λ c. c == b':' || c == b'/') (codes "ftp://" ++ s) ≡ some 3
unfolding find_first
find_first-colon s = refl

slash_before-front :
    (at : ℕ) (s : Bytes) → slash_before at 0 (codes "ftp://" ++ s) ≡ slash_before at 6 s
unfolding slash_before
slash_before-front at s = refl

-- User and password, and an '@' behind them.
abbrev pub IsUser : Bytes → Type 0
IsUser = All (λ x. (x ≢ 0) × (x ≢ b'/') × (x ≢ b'@'))

-- The URL of a file, with a user and a port.
abbrev pub user_url : (user password host port dir file : Bytes) → Bytes
user_url user password host port dir file =
    codes "ftp://" ++ ((user ++ b':' ∷ password) ++ b'@' ∷ domain_text host port dir file)

IsUser-at : (s : Bytes) → IsUser s → All (λ x. (x == b'@') ≡ false) s
IsUser-at [] h = tt
IsUser-at (x ∷ s) ((_, _, n), h) = (==_ne x b'@' n, IsUser-at s h)

IsUser-slash : (s : Bytes) → IsUser s → All (λ x. (x ≢ 0) × (x ≢ b'/')) s
IsUser-slash [] h = tt
IsUser-slash (x ∷ s) ((z, n, _), h) = ((z, n), IsUser-slash s h)

user_end-some :
    (user_password rest : Bytes)
    → IsUser user_password
    → user_end
        (codes "ftp://" ++ (user_password ++ b'@' ∷ rest))
        (find_first (λ c. c == b'@') (codes "ftp://" ++ (user_password ++ b'@' ∷ rest)))
      ≡ some (length (codes "ftp://" ++ user_password))
user_end-some user_password rest h =
    let at = length (codes "ftp://" ++ user_password) in
    let found : find_first (λ c. c == b'@') (codes "ftp://" ++ (user_password ++ b'@' ∷ rest))
        ≡ some at =
      find_first-append (λ c. c == b'@') (codes "ftp://" ++ user_password) rest b'@'
        (All-append _ (codes "ftp://") user_password
          (refl, (refl, (refl, (refl, (refl, (refl, tt)))))) (IsUser-at user_password h))
        refl in
    rw
      (
        found,
        slash_before-front at (user_password ++ b'@' ∷ rest),
        slash_before-free at 6 user_password (b'@' ∷ rest) (IsUser-slash user_password h)
            (omega arith),
      )
      refl

user_mode_lem :
    (user password text : Bytes)
    → All (λ x. (x == b':') ≡ false) user
    → length (codes "ftp://" ++ ((user ++ b':' ∷ password) ++ b'@' ∷ text)) < 2 ^ 64
    → user_mode
        (codes "ftp://" ++ ((user ++ b':' ∷ password) ++ b'@' ∷ text))
        (user ++ b':' ∷ password)
        (length (codes "ftp://" ++ (user ++ b':' ∷ password)))
        (find_first (λ c. c == b':') (user ++ b':' ∷ password))
      ≡ ok (some (parse_domain user password text))
user_mode_lem user password text h bound =
    let up = user ++ b':' ∷ password in
    let front = codes "ftp://" ++ up in
    let url = codes "ftp://" ++ (up ++ b'@' ∷ text) in
    let sizes = length-append up (b'@' ∷ text) in
    let users = length-append user (b':' ∷ password) in
    let colon = find_first-append (λ c. c == b':') user password b':' h refl in
    let inside : leb (suc (length front)) (length url) ≡ true =
      le→leb (suc (length front)) (length url) (omega (arith, sizes)) in
    let behind : drop (suc (length front)) url ≡ text =
      drop-append_suc (length front) front b'@' text refl in
    let whole : take (sub64 (length url) (suc (length user))) text ≡ text =
      take_all (sub64 (length url) (suc (length user))) text (omega (arith, sizes, users, bound)) in
    rw
      (
        colon,
        inside,
        behind,
        whole,
        take-append user (b':' ∷ password),
        drop-append_suc (length user) user b':' password refl,
      )
      refl

parse_mode_lem :
    (user_password text : Bytes)
    → length (codes "ftp://" ++ (user_password ++ b'@' ∷ text)) < 2 ^ 64
    → parse_mode
        (codes "ftp://" ++ (user_password ++ b'@' ∷ text))
        (some 3)
        (some (length (codes "ftp://" ++ user_password)))
      ≡ user_mode
          (codes "ftp://" ++ (user_password ++ b'@' ∷ text))
          user_password
          (length (codes "ftp://" ++ user_password))
          (find_first (λ c. c == b':') user_password)
parse_mode_lem user_password text bound =
    let url = codes "ftp://" ++ (user_password ++ b'@' ∷ text) in
    let sizes = length-append user_password (b'@' ∷ text) in
    let inside : leb 6 (length url) ≡ true = le→leb 6 (length url) (omega arith) in
    let size : sub64 (length (codes "ftp://" ++ user_password)) 6 ≡ length user_password =
      omega (arith, sizes, bound) in
    rw (inside, size, take-append user_password (b'@' ∷ text)) refl

parse_ftp_url-user :
    (url : Bytes) (pos1 at : ℕ)
    → contains (codes "ftp://") url ≡ true
    → find_first (λ c. c == b':' || c == b'/') url ≡ some pos1
    → user_end url (find_first (λ c. c == b'@') url) ≡ some at
    → parse_ftp_url url ≡ parse_mode url (some pos1) (some at)
unfolding parse_ftp_url
parse_ftp_url-user url pos1 at c f u = rw (c, f, u) refl

-- The URL of a file, written with a user, a password, a host and a port, gives these back, with the
-- directories as the path and the name as the file. Where user and password have no '/', '@' or NUL,
-- the user and the host no ':', and neither the host, the port nor the file a '/'; the directories may
-- have any characters.
pub parse_ftp_url-user_url :
    (user password host port dir file : Bytes)
    → IsUser (user ++ b':' ∷ password)
    → All (λ x. (x == b':') ≡ false) user
    → All (λ x. (x == b':') ≡ false) host
    → All (λ x. (x == b'/') ≡ false) host
    → All (λ x. (x == b'/') ≡ false) port
    → All (λ x. (x == b'/') ≡ false) file
    → length (user_url user password host port dir file) < 2 ^ 64
    → parse_ftp_url (user_url user password host port dir file)
      ≡ ok (
          some (record {
            user = user;
            password = password;
            domain = host;
            port = port;
            path = b'/' ∷ dir;
            file = file;
          }))
parse_ftp_url-user_url user password host port dir file is_user uc hc hs ps fs bound =
    let up = user ++ b':' ∷ password in
    let text = domain_text host port dir file in
    let sizes = length-append up (b'@' ∷ text) in
    parse_ftp_url-user (codes "ftp://" ++ (up ++ b'@' ∷ text)) 3 _ (contains-front _)
      (find_first-colon _) (user_end-some up text is_user)
    ∙ (parse_mode_lem up text bound
        ∙ (user_mode_lem user password text uc bound
            ∙ ap (λ u. ok (some u))
                (parse_domain_lem user password host port dir file hc hs ps fs
                  (omega (arith, sizes, bound)))))

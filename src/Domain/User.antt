-- ===== src/Domain/User.antt =====
-- internal/domain/user.go: users, the inputs of the user operations, and their validation. Texts
-- are taken as ASCII where the source calls `strings.ToLower` and `strings.TrimSpace`.
pub mod Laws
use elysium.Prelude.{
  ℕ, ◌+◌, Bool, true, false, not, ◌&&◌, ◌||◌, Option, none, some, List, [], ◌∷◌, ◌++◌, Text, lit,
  length, is_empty, map, ◌==◌, ltb, leb, nat_eq, if◌then◌else◌,
}
use elysium.Errors.{Error, sentinel, invalid_input, Result, ok, err}

pub record User : Type 0 where
  pub id : Text
  pub first_name : Text
  pub last_name : Text
  pub nickname : Text
  pub password_hash : Text
  pub email : Text
  pub country : Text
  pub active : Bool
  pub created_at : ℕ
  pub updated_at : ℕ

pub record CreateUserInput : Type 0 where
  pub first_name : Text
  pub last_name : Text
  pub nickname : Text
  pub password : Text
  pub email : Text
  pub country : Text

pub record UpdateUserInput : Type 0 where
  pub first_name : Option Text
  pub last_name : Option Text
  pub nickname : Option Text
  pub country : Option Text

pub record LoginInput : Type 0 where
  pub email : Text
  pub password : Text

-- The bytes of an ASCII text that `strings.TrimSpace` drops: tab to carriage return, and the space.
unfoldable pub is_space : ℕ → Bool
is_space c = leb 9 c && leb c 13 || nat_eq c 32

unfoldable pub trim_left : Text → Text
trim_left [] = []
trim_left (c ∷ cs) = let rest = trim_left cs in if is_space c then rest else c ∷ cs

unfoldable pub trim_right : Text → Text
trim_right [] = []
trim_right (c ∷ cs) =
    let rest = trim_right cs in if is_space c && is_empty rest then [] else c ∷ rest

-- `strings.TrimSpace`.
unfoldable pub trim_space : Text → Text
trim_space s = trim_right (trim_left s)

-- `strings.ToLower`.
abbrev pub lower : ℕ → ℕ
lower c = if leb 65 c && leb c 90 then c + 32 else c

unfoldable pub to_lower : Text → Text
to_lower [] = []
to_lower (c ∷ cs) = lower c ∷ to_lower cs

-- `[a-zA-Z]`, `[a-zA-Z0-9]`.
abbrev pub is_letter : ℕ → Bool
is_letter c = leb 65 c && leb c 90 || leb 97 c && leb c 122

abbrev pub is_alnum : ℕ → Bool
is_alnum c = is_letter c || leb 48 c && leb c 57

-- `[a-zA-Z0-9_\-]`.
unfoldable pub is_nickname_char : ℕ → Bool
is_nickname_char c = is_alnum c || nat_eq c 95 || nat_eq c 45

-- `[a-zA-Z0-9.\-]`, `[a-zA-Z0-9._%+\-]`.
unfoldable pub is_host_char : ℕ → Bool
is_host_char c = is_alnum c || nat_eq c 46 || nat_eq c 45

unfoldable pub is_local_char : ℕ → Bool
is_local_char c = is_host_char c || nat_eq c 95 || nat_eq c 37 || nat_eq c 43

unfoldable pub every : (ℕ → Bool) → Text → Bool
every p [] = true
every p (c ∷ cs) = p c && every p cs

-- `nicknameRegex`: `^[a-zA-Z0-9_\-]{3,32}$`.
unfoldable pub nickname_matches : Text → Bool
nickname_matches s = every is_nickname_char s && leb 3 (length s) && leb (length s) 32

-- `[a-zA-Z]{2,}$`.
unfoldable pub top_level_matches : Text → Bool
top_level_matches s = every is_letter s && leb 2 (length s)

-- `[a-zA-Z0-9.\-]*\.[a-zA-Z]{2,}$`.
unfoldable pub host_rest_matches : Text → Bool
host_rest_matches [] = false
host_rest_matches (c ∷ cs) =
    nat_eq c 46 && top_level_matches cs || is_host_char c && host_rest_matches cs

-- `[a-zA-Z0-9.\-]+\.[a-zA-Z]{2,}$`.
unfoldable pub host_matches : Text → Bool
host_matches [] = false
host_matches (c ∷ cs) = is_host_char c && host_rest_matches cs

-- `[a-zA-Z0-9._%+\-]*@[a-zA-Z0-9.\-]+\.[a-zA-Z]{2,}$`: no local character is an `@`.
unfoldable pub local_rest_matches : Text → Bool
local_rest_matches [] = false
local_rest_matches (c ∷ cs) =
    nat_eq c 64 && host_matches cs || is_local_char c && local_rest_matches cs

-- `emailRegex`.
unfoldable pub email_matches : Text → Bool
email_matches [] = false
email_matches (c ∷ cs) = is_local_char c && local_rest_matches cs

-- The assignments at the head of `CreateUserInput.Validate`.
unfoldable pub sanitised : CreateUserInput → CreateUserInput
sanitised i = record {
  first_name = trim_space i.first_name;
  last_name = trim_space i.last_name;
  nickname = trim_space i.nickname;
  password = i.password;
  email = to_lower (trim_space i.email);
  country = trim_space i.country;
}

-- Its tests.
unfoldable pub is_acceptable : CreateUserInput → Bool
is_acceptable i =
    not (is_empty i.first_name || is_empty i.last_name)
    && email_matches i.email
    && nickname_matches i.nickname
    && not (ltb (length i.password) 8)
    && not (is_empty i.country)

-- `CreateUserInput.Validate`, which returns the input that it changed.
unfoldable pub validate : CreateUserInput → Result CreateUserInput
validate i = if is_acceptable (sanitised i) then ok (sanitised i) else err (sentinel invalid_input)

-- `LoginInput.Validate`.
unfoldable pub validate_login : LoginInput → Result LoginInput
validate_login i =
    let email = to_lower (trim_space i.email) in
    if email_matches email && not (is_empty i.password)
    then ok (record { email = email; password = i.password })
    else err (sentinel invalid_input)

-- Go's `int`.
pub data ℤ : Type 0 where
  pos : ℕ → ℤ
  negsuc : ℕ → ℤ

pub record ListFilter : Type 0 where
  pub country : Text
  pub page : ℤ
  pub page_size : ℤ

-- `Normalise`, on the page and on the page size.
unfoldable pub normal_page : ℤ → ℕ
normal_page (negsuc n) = 1
normal_page (pos n) = if ltb n 1 then 1 else n

unfoldable pub normal_page_size : ℤ → ℕ
normal_page_size (negsuc n) = 20
normal_page_size (pos n) = if ltb n 1 then 20 else if ltb 100 n then 100 else n

unfoldable pub normalise : ListFilter → ListFilter
normalise f = record {
  country = f.country;
  page = pos (normal_page f.page);
  page_size = pos (normal_page_size f.page_size);
}

pub record ListResult : Type 0 where
  pub users : List User
  pub total : ℕ
  pub page : ℕ
  pub pages : ℕ

-- Opening this opens the validation of inputs and all that it calls.
unfoldable pub validation : Unit {0}
unfolding validate validate_login sanitised is_acceptable trim_space trim_right trim_left is_space
    to_lower email_matches is_local_char is_host_char local_rest_matches host_matches
    host_rest_matches top_level_matches every nickname_matches is_nickname_char
validation = tt

-- ===== src/Schemas/Forms.antt =====
-- app/schemas/{user,boards,files,admin}.py: the request bodies. A body is accepted when each field
-- is, and holds the texts that the validators return.
use fast_api_community_backe.Common.{ℕ, String, Option, none, some, if◌then◌else◌}
use fast_api_community_backe.Schemas.{
  Unicode, has_length, validate_id_format, validate_password_format, validate_name_format,
  validate_title_format, validate_content_format,
}
use fast_api_community_backe.Services.Auth.{UserLogin}
use fast_api_community_backe.Services.Users.Register.{UserRegister}

infixl 5 ◌>>=◌
unfoldable pub ◌>>=◌ : {A B : Type 0} → Option A → (A → Option B) → Option B
none >>= f = none
some a >>= f = f a

-- Field(min_length=low, max_length=high), then the validator
abbrev pub field : ℕ → ℕ → (String → Option String) → String → Option String
field low high validate v = if has_length low high v then validate v else none

module _ (unicode : Unicode) where
  unfoldable pub id_field : String → Option String
  unfolding validate_id_format
  id_field v = field 5 30 (validate_id_format unicode) v

  unfoldable pub password_field : String → Option String
  unfolding validate_password_format
  password_field v = field 8 30 (validate_password_format unicode) v

  unfoldable pub name_field : String → Option String
  unfolding validate_name_format
  name_field v = field 2 50 (validate_name_format unicode) v

  unfoldable pub title_field : String → Option String
  unfolding validate_title_format
  title_field v = field 2 200 (validate_title_format unicode) v

  unfoldable pub content_field : String → Option String
  unfolding validate_content_format
  content_field v = field 30 2000 (validate_content_format unicode) v

  unfoldable pub user_login : String → String → Option UserLogin
  unfolding id_field password_field ◌>>=◌
  user_login id password = do
    id' ← id_field id
    password' ← password_field password
    some (record { id = id'; password = password' })

  unfoldable pub user_id : String → Option String
  unfolding id_field
  user_id id = id_field id

  unfoldable pub user_pw : String → Option String
  unfolding password_field
  user_pw password = password_field password

  -- The bodies of the requests that delete and restore boards and files are a password.
  unfoldable pub delete_boards_form : String → Option String
  unfolding password_field
  delete_boards_form password = password_field password

  unfoldable pub restore_boards_form : String → Option String
  unfolding password_field
  restore_boards_form password = password_field password

  unfoldable pub delete_file_form : String → Option String
  unfolding password_field
  delete_file_form password = password_field password

  unfoldable pub delete_all_file_form : String → Option String
  unfolding password_field
  delete_all_file_form password = password_field password

  unfoldable pub restore_file_form : String → Option String
  unfolding password_field
  restore_file_form password = password_field password

  unfoldable pub restore_all_file_form : String → Option String
  unfolding password_field
  restore_all_file_form password = password_field password

  unfoldable pub modi_id : String → String → Option (String × String)
  unfolding id_field password_field ◌>>=◌
  modi_id password new_id = do
    password' ← password_field password
    new_id' ← id_field new_id
    some (password', new_id')

  unfoldable pub modi_pw : String → String → Option (String × String)
  unfolding password_field ◌>>=◌
  modi_pw password new_password = do
    password' ← password_field password
    new_password' ← password_field new_password
    some (password', new_password')

  unfoldable pub create_board : String → String → Option (String × String)
  unfolding title_field content_field ◌>>=◌
  create_board title content = do
    title' ← title_field title
    content' ← content_field content
    some (title', content')

  unfoldable pub create_notice : String → String → Option (String × String)
  unfolding title_field content_field ◌>>=◌
  create_notice title content = do
    title' ← title_field title
    content' ← content_field content
    some (title', content')

  unfoldable pub modi_title : String → String → Option (String × String)
  unfolding title_field password_field ◌>>=◌
  modi_title password new_title = do
    password' ← password_field password
    new_title' ← title_field new_title
    some (password', new_title')

  unfoldable pub modi_content : String → String → Option (String × String)
  unfolding content_field password_field ◌>>=◌
  modi_content password new_content = do
    password' ← password_field password
    new_content' ← content_field new_content
    some (password', new_content')

  -- `email_str` is pydantic's EmailStr.
  module _ (email_str : String → Option String) where
    unfoldable pub user_register : String → String → String → String → Option UserRegister
    unfolding id_field password_field name_field ◌>>=◌
    user_register id password name email = do
      id' ← id_field id
      password' ← password_field password
      name' ← name_field name
      email' ← email_str email
      some (record { id = id'; password = password'; name = name'; email = email' })

    unfoldable pub find_id : String → String → Option (String × String)
    unfolding name_field ◌>>=◌
    find_id name email = do name' ← name_field name; email' ← email_str email; some (name', email')

    unfoldable pub find_pw : String → String → String → Option (String × String × String)
    unfolding id_field name_field ◌>>=◌
    find_pw id name email = do
      id' ← id_field id
      name' ← name_field name
      email' ← email_str email
      some (id', name', email')

    unfoldable pub modi_email : String → String → Option (String × String)
    unfolding password_field ◌>>=◌
    modi_email password new_email = do
      password' ← password_field password
      new_email' ← email_str new_email
      some (password', new_email')

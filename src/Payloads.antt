-- ===== src/Payloads.antt =====
-- The payloads of common/src/payloads/mod.rs. A string is its list of characters, a UUID a number.
use shamichan.Prelude.{ℕ, List, Option, none, Bool, true, false}
use shamichan.Collections.HashMap.{HashMap}
use shamichan.PostBody.Node.{Node}

pub data Authorization : Type 0 where
  new_pub_key : List ℕ → Authorization
  -- id, nonce and signature
  saved : ℕ → List ℕ → List ℕ → Authorization

pub record HandshakeReq : Type 0 where
  pub protocol_version : ℕ
  pub auth : Authorization

pub data PubKeyStatus : Type 0 where
  accepted need_resend not_found : PubKeyStatus

pub record HandshakeRes : Type 0 where
  pub id : ℕ
  pub status : PubKeyStatus

pub record ThreadCreationReq : Type 0 where
  pub subject : List ℕ
  pub tags : List (List ℕ)
  pub captcha_solution : List ℕ
  -- `opts.name`
  pub name : List ℕ

pub record PostCreationOpts : Type 0 where
  pub name : Option (List ℕ)
  pub trip : Option (List ℕ)
  pub flag : Option (List ℕ)

pub record ReplyCreationOpts : Type 0 where
  pub sage : Bool
  pub post_opts : PostCreationOpts

pub record PostCreationReq : Type 0 where
  pub sage : Bool
  pub thread : ℕ
  -- `opts.name`
  pub name : List ℕ

pub record PostCreationNotification : Type 0 where
  pub id : ℕ
  pub thread : ℕ
  pub time : ℕ
  pub page : ℕ
  pub opts : ReplyCreationOpts

pub data FileType : Type 0 where
  jpeg png gif webm pdf svg mp4 mp3 ogg zip seven_zip tgz txz flac no_file txt webp rar : FileType
  cbz cbr : FileType

pub record Image : Type 0 where
  pub sha1 : List ℕ
  pub md5 : List ℕ
  pub audio : Bool
  pub video : Bool
  pub file_type : FileType
  pub thumb_type : FileType
  pub width : ℕ
  pub height : ℕ
  pub thumb_width : ℕ
  pub thumb_height : ℕ
  pub duration : ℕ
  pub size : ℕ
  pub artist : Option (List ℕ)
  pub title : Option (List ℕ)
  pub name : List ℕ
  pub spoilered : Bool

pub record Post : Type 0 where
  pub id : ℕ
  pub page : ℕ
  pub thread : ℕ
  pub created_on : ℕ
  pub is_open : Bool
  pub sage : Bool
  pub name : Option (List ℕ)
  pub trip : Option (List ℕ)
  pub flag : Option (List ℕ)
  pub body : Node
  pub image : Option Image

-- `Post::new`
abbrev pub new_post : ℕ → ℕ → ℕ → ℕ → ReplyCreationOpts → Post
new_post id thread page created_on opts = record {
  id = id;
  page = page;
  thread = thread;
  created_on = created_on;
  is_open = true;
  sage = opts.sage;
  name = opts.post_opts.name;
  trip = opts.post_opts.trip;
  flag = opts.post_opts.flag;
  body = Node.empty;
  image = none;
}

-- `Post::new_op`
abbrev pub new_op : ℕ → ℕ → PostCreationOpts → Post
new_op id created_on opts = new_post id id 0 created_on (record { sage = false; post_opts = opts })

pub record Thread : Type 0 where
  pub id : ℕ
  pub created_on : ℕ
  pub bumped_on : ℕ
  pub subject : List ℕ
  pub tags : List (List ℕ)
  pub page_count : ℕ
  pub post_count : ℕ
  pub image_count : ℕ

-- `Thread::new`
abbrev pub new_thread : ℕ → ℕ → List ℕ → List (List ℕ) → Thread
new_thread id created_on subject tags = record {
  id = id;
  created_on = created_on;
  bumped_on = created_on;
  subject = subject;
  tags = tags;
  page_count = 1;
  post_count = 1;
  image_count = 0;
}

pub record ThreadWithPosts : Type 0 where
  pub thread : Thread
  pub posts : HashMap ℕ Post

pub record ImmutablePage : Type 0 where
  pub thread : ℕ
  pub page : ℕ
  pub posts : List Post

-- ===== src/Handler/Reply.antt =====
-- pkg/handler/error.go: the errors of the registry API; and what a request is answered.
use jitdi.Base.{ℕ, Option, none, Bytes, codes}
use jitdi.Exec.{Error}

pub record RegError : Type 0 where
  pub status : ℕ
  pub code : Bytes
  pub message : Bytes

-- `err.Error()` is `describe`.
unfoldable pub reg_err_internal : (Error → Bytes) → Error → RegError
reg_err_internal describe e = record {
  status = 500;
  code = codes "INTERNAL_SERVER_ERROR";
  message = describe e;
}

abbrev pub reg_err_blob_unknown : RegError
reg_err_blob_unknown = record {
  status = 404;
  code = codes "BLOB_UNKNOWN";
  message = codes "Unknown blob";
}

abbrev pub reg_err_unsupported : RegError
reg_err_unsupported = record {
  status = 405;
  code = codes "UNSUPPORTED";
  message = codes "Unsupported operation";
}

abbrev pub reg_err_not_found : RegError
reg_err_not_found = record {
  status = 404;
  code = codes "NAME_UNKNOWN";
  message = codes "Unknown name";
}

-- The body: nothing, bytes that are written, the JSON text of an error under its status, or contents
-- that `http.ServeContent` answers from.
pub data Body : Type 0 where
  empty : Body
  written content : Bytes → Body
  reg_error : RegError → Body

pub record Reply : Type 0 where
  pub content_type : Option Bytes
  pub content_length : Option ℕ
  pub body : Body

-- `RegError.Write` with no header set.
abbrev pub refused : RegError → Reply
refused e = record { content_type = none; content_length = none; body = reg_error e }

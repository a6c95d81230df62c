-- ===== src/Errors/Codes.antt =====
-- errors/constants.go and the constants of errors/mapping.go.
use ecommerce_gateway.Common.{ℕ, ℤ, pos, Text, bytes, Map, []}

-- Connect error codes.
pub data Code : Type 0 where
  canceled unknown invalid_argument deadline_exceeded not_found already_exists : Code
  permission_denied resource_exhausted failed_precondition aborted out_of_range : Code
  unimplemented internal unavailable data_loss unauthenticated : Code

-- The wire form of a code.
unfoldable pub code_text : Code → Text
code_text canceled = bytes "canceled"
code_text unknown = bytes "unknown"
code_text invalid_argument = bytes "invalid_argument"
code_text deadline_exceeded = bytes "deadline_exceeded"
code_text not_found = bytes "not_found"
code_text already_exists = bytes "already_exists"
code_text permission_denied = bytes "permission_denied"
code_text resource_exhausted = bytes "resource_exhausted"
code_text failed_precondition = bytes "failed_precondition"
code_text aborted = bytes "aborted"
code_text out_of_range = bytes "out_of_range"
code_text unimplemented = bytes "unimplemented"
code_text internal = bytes "internal"
code_text unavailable = bytes "unavailable"
code_text data_loss = bytes "data_loss"
code_text unauthenticated = bytes "unauthenticated"

-- kratos errors.Error, a type of a package outside the repository.
pub record KratosError : Type 0 where
  pub code : ℤ
  pub reason : Text
  pub message : Text
  pub metadata : Map Text

-- A Go error as the gateway looks at one: with errors.As for a kratos error, with errors.Is for the
-- sentinels of package context, and by its text. `wrap` is fmt.Errorf with %w, and its text.
pub data Err : Type 0 where
  kratos : KratosError → Err
  context_canceled context_deadline_exceeded : Err
  plain : Text → Err
  wrap : Text → Err → Err

-- errors.New of kratos.
abbrev pub new_error : ℕ → Text → Text → KratosError
new_error code reason message = record {
  code = pos code;
  reason = reason;
  message = message;
  metadata = [];
}

abbrev pub err_permission_denied : KratosError
err_permission_denied = new_error 403 (bytes "PERMISSION_DENIED") (bytes "权限校验失败，请检查操作权限")

abbrev pub err_forbidden_route : KratosError
err_forbidden_route = new_error 403 (bytes "FORBIDDEN_ROUTE") (bytes "当前角色无权访问该资源或页面")

abbrev pub err_operation_denied : KratosError
err_operation_denied = new_error 403 (bytes "OPERATION_DENIED") (bytes "操作权限不足，请联系管理员分配权限")

abbrev pub err_auth_check_failed : KratosError
err_auth_check_failed = new_error 500 (bytes "AUTH_CHECK_FAILED") (bytes "无法验证权限")

abbrev pub err_empty_file : KratosError
err_empty_file = new_error 400 (bytes "INVALID_FILE") (bytes "上传文件内容不能为空")

abbrev pub err_file_content_empty : KratosError
err_file_content_empty = new_error 422 (bytes "DATA_EMPTY") (bytes "读取失败：文件内容为空，请检查文件数据")

abbrev pub err_invalid_request : KratosError
err_invalid_request = new_error 400 (bytes "INVALID_REQUEST") (bytes "无效的请求参数")

abbrev pub err_service_unavailable : KratosError
err_service_unavailable = new_error 503 (bytes "SERVICE_UNAVAILABLE") (bytes "服务暂时不可用，请稍后再试")

abbrev pub err_route_not_found : KratosError
err_route_not_found = new_error 404 (bytes "NOT_FOUND") (bytes "请求的资源不存在")

abbrev pub err_method_not_allowed : KratosError
err_method_not_allowed = new_error 405 (bytes "METHOD_NOT_ALLOWED") (bytes "请求方法不被允许")

abbrev pub err_internal_server : KratosError
err_internal_server = new_error 500 (bytes "INTERNAL_ERROR") (bytes "服务内部错误，请稍后重试")

abbrev pub err_bad_gateway : KratosError
err_bad_gateway = new_error 502 (bytes "BAD_GATEWAY") (bytes "网关无法连接到后端服务")

-- ===== src/Setup/SecurityDefinitions.antt =====
-- setup/env-definitions.ts: the variables for security, and the others.
use mathplat.Common.{true, false, none, some, List, [], ◌∷◌}
use mathplat.Setup.Definition.{EnvDefinition, text, password_, number, select}

abbrev jwt_secret : EnvDefinition
jwt_secret = record {
  key = "JWT_SECRET";
  label = "JWT 시크릿 키";
  group = "auth";
  kind = password_;
  default_value = "";
  placeholder = "32자 이상 랜덤 문자열";
  required = true;
  options = none;
  auto_generate = some true;
  auto_generate_length = some 64;
  description = some "JWT 토큰 서명에 사용되는 비밀 키";
  hide_when_env = none;
}

abbrev jwt_access_expires_in : EnvDefinition
jwt_access_expires_in = record {
  key = "JWT_ACCESS_EXPIRES_IN";
  label = "Access Token 만료";
  group = "auth";
  kind = text;
  default_value = "1h";
  placeholder = "1h";
  required = true;
  options = none;
  auto_generate = none;
  auto_generate_length = none;
  description = some "Access Token 만료 시간 (예: 1h, 30m, 7d)";
  hide_when_env = none;
}

abbrev jwt_refresh_expires_in : EnvDefinition
jwt_refresh_expires_in = record {
  key = "JWT_REFRESH_EXPIRES_IN";
  label = "Refresh Token 만료";
  group = "auth";
  kind = text;
  default_value = "30d";
  placeholder = "30d";
  required = true;
  options = none;
  auto_generate = none;
  auto_generate_length = none;
  description = some "Refresh Token 만료 시간 (예: 30d, 90d)";
  hide_when_env = none;
}

abbrev google_client_id : EnvDefinition
google_client_id = record {
  key = "GOOGLE_CLIENT_ID";
  label = "Google OAuth Client ID";
  group = "auth";
  kind = text;
  default_value = "";
  placeholder = "xxx.apps.googleusercontent.com";
  required = false;
  options = none;
  auto_generate = none;
  auto_generate_length = none;
  description = some "Google Cloud Console에서 발급받은 OAuth Client ID";
  hide_when_env = none;
}

abbrev google_client_secret : EnvDefinition
google_client_secret = record {
  key = "GOOGLE_CLIENT_SECRET";
  label = "Google OAuth Client Secret";
  group = "auth";
  kind = password_;
  default_value = "";
  placeholder = "Google OAuth Secret";
  required = false;
  options = none;
  auto_generate = none;
  auto_generate_length = none;
  description = some "Google Cloud Console에서 발급받은 OAuth Client Secret";
  hide_when_env = none;
}

abbrev google_callback_url : EnvDefinition
google_callback_url = record {
  key = "GOOGLE_CALLBACK_URL";
  label = "Google OAuth Callback URL";
  group = "auth";
  kind = text;
  default_value = "http://localhost:3000/api/v1/auth/google/callback";
  placeholder = "http://localhost:3000/api/v1/auth/google/callback";
  required = false;
  options = none;
  auto_generate = none;
  auto_generate_length = none;
  description = some "Google OAuth 로그인 후 리다이렉트 URL";
  hide_when_env = none;
}

abbrev max_devices_per_user : EnvDefinition
max_devices_per_user = record {
  key = "MAX_DEVICES_PER_USER";
  label = "최대 동시 접속 기기 수";
  group = "auth";
  kind = number;
  default_value = "1";
  placeholder = "1";
  required = true;
  options = none;
  auto_generate = none;
  auto_generate_length = none;
  description = some "로그인 계정당 동시 접속 가능한 기기 수 (0 = 무제한)";
  hide_when_env = none;
}

abbrev encryption_key : EnvDefinition
encryption_key = record {
  key = "ENCRYPTION_KEY";
  label = "암호화 키";
  group = "etc";
  kind = password_;
  default_value = "";
  placeholder = "32바이트 암호화 키";
  required = true;
  options = none;
  auto_generate = some true;
  auto_generate_length = some 32;
  description = some "민감 데이터 AES 암호화에 사용되는 키";
  hide_when_env = none;
}

abbrev default_timezone : EnvDefinition
default_timezone = record {
  key = "DEFAULT_TIMEZONE";
  label = "기본 타임존";
  group = "etc";
  kind = text;
  default_value = "Asia/Seoul";
  placeholder = "Asia/Seoul";
  required = true;
  options = none;
  auto_generate = none;
  auto_generate_length = none;
  description = some "클라이언트 미지정 시 사용할 기본 타임존";
  hide_when_env = none;
}

abbrev cors_origins : EnvDefinition
cors_origins = record {
  key = "CORS_ORIGINS";
  label = "CORS 허용 도메인";
  group = "etc";
  kind = text;
  default_value = "*";
  placeholder = "http://localhost:3000 또는 * (전체 허용)";
  required = true;
  options = none;
  auto_generate = none;
  auto_generate_length = none;
  description = some "쉼표로 구분하여 여러 도메인 입력 가능, *는 전체 허용";
  hide_when_env = none;
}

abbrev log_dir : EnvDefinition
log_dir = record {
  key = "LOG_DIR";
  label = "로그 디렉토리";
  group = "etc";
  kind = text;
  default_value = "./logs";
  placeholder = "./logs";
  required = false;
  options = none;
  auto_generate = none;
  auto_generate_length = none;
  description = some "로그 파일 저장 경로";
  hide_when_env = none;
}

abbrev swagger_enabled : EnvDefinition
swagger_enabled = record {
  key = "SWAGGER_ENABLED";
  label = "Swagger 문서 활성화";
  group = "etc";
  kind = select;
  default_value = "true";
  placeholder = "";
  required = true;
  options = some ("true" ∷ "false" ∷ []);
  auto_generate = none;
  auto_generate_length = none;
  description = some "API 문서 자동 생성 (prod 환경에서는 자동으로 비활성화됩니다)";
  hide_when_env = some "prod";
}

abbrev swagger_path : EnvDefinition
swagger_path = record {
  key = "SWAGGER_PATH";
  label = "Swagger 경로";
  group = "etc";
  kind = text;
  default_value = "/api-docs";
  placeholder = "/api-docs";
  required = false;
  options = none;
  auto_generate = none;
  auto_generate_length = none;
  description = some "Swagger UI 접근 경로";
  hide_when_env = some "prod";
}

abbrev pub security_definitions : List EnvDefinition
security_definitions =
    jwt_secret ∷ jwt_access_expires_in ∷ jwt_refresh_expires_in ∷ google_client_id
    ∷ google_client_secret ∷ google_callback_url ∷ max_devices_per_user ∷ encryption_key
    ∷ default_timezone ∷ cors_origins ∷ log_dir ∷ swagger_enabled ∷ swagger_path ∷ []

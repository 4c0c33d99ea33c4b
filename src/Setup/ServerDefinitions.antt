-- ===== src/Setup/ServerDefinitions.antt =====
-- setup/env-definitions.ts: the variables for the application, the database and Redis.
use mathplat.Common.{true, false, none, some, List, [], ◌∷◌}
use mathplat.Setup.Definition.{EnvDefinition, text, password_, number, select}

abbrev node_env : EnvDefinition
node_env = record {
  key = "NODE_ENV";
  label = "실행 환경";
  group = "app";
  kind = select;
  default_value = "local";
  placeholder = "";
  required = true;
  options = some ("local" ∷ "dev" ∷ "prod" ∷ []);
  auto_generate = none;
  auto_generate_length = none;
  description = some "local: 개발, dev: 개발서버, prod: 운영서버";
  hide_when_env = none;
}

abbrev port : EnvDefinition
port = record {
  key = "PORT";
  label = "서버 포트";
  group = "app";
  kind = number;
  default_value = "3000";
  placeholder = "3000";
  required = true;
  options = none;
  auto_generate = none;
  auto_generate_length = none;
  description = some "NestJS 서버가 리스닝할 포트 번호";
  hide_when_env = none;
}

abbrev api_version : EnvDefinition
api_version = record {
  key = "API_VERSION";
  label = "API 버전";
  group = "app";
  kind = text;
  default_value = "v1";
  placeholder = "v1";
  required = true;
  options = none;
  auto_generate = none;
  auto_generate_length = none;
  description = some "API 경로 프리픽스에 사용 (예: /api/v1)";
  hide_when_env = none;
}

abbrev db_host : EnvDefinition
db_host = record {
  key = "DB_HOST";
  label = "DB 호스트";
  group = "database";
  kind = text;
  default_value = "localhost";
  placeholder = "localhost";
  required = true;
  options = none;
  auto_generate = none;
  auto_generate_length = none;
  description = some "MySQL 서버 호스트 주소";
  hide_when_env = none;
}

abbrev db_port : EnvDefinition
db_port = record {
  key = "DB_PORT";
  label = "DB 포트";
  group = "database";
  kind = number;
  default_value = "3306";
  placeholder = "3306";
  required = true;
  options = none;
  auto_generate = none;
  auto_generate_length = none;
  description = some "MySQL 서버 포트 번호";
  hide_when_env = none;
}

abbrev db_user : EnvDefinition
db_user = record {
  key = "DB_USER";
  label = "DB 사용자명";
  group = "database";
  kind = text;
  default_value = "root";
  placeholder = "root";
  required = true;
  options = none;
  auto_generate = none;
  auto_generate_length = none;
  description = some "MySQL 접속 사용자 계정";
  hide_when_env = none;
}

abbrev db_password : EnvDefinition
db_password = record {
  key = "DB_PASSWORD";
  label = "DB 비밀번호";
  group = "database";
  kind = password_;
  default_value = "";
  placeholder = "비밀번호 입력";
  required = true;
  options = none;
  auto_generate = none;
  auto_generate_length = none;
  description = some "MySQL 접속 비밀번호";
  hide_when_env = none;
}

abbrev db_name : EnvDefinition
db_name = record {
  key = "DB_NAME";
  label = "DB 이름";
  group = "database";
  kind = text;
  default_value = "nestjs_engine_db";
  placeholder = "nestjs_engine_db";
  required = true;
  options = none;
  auto_generate = none;
  auto_generate_length = none;
  description = some "사용할 데이터베이스 이름";
  hide_when_env = none;
}

abbrev redis_mode : EnvDefinition
redis_mode = record {
  key = "REDIS_MODE";
  label = "Redis 모드";
  group = "redis";
  kind = select;
  default_value = "direct";
  placeholder = "";
  required = true;
  options = some ("direct" ∷ "cluster" ∷ []);
  auto_generate = none;
  auto_generate_length = none;
  description = some "direct: 단일 노드, cluster: 클러스터 모드";
  hide_when_env = none;
}

abbrev redis_host : EnvDefinition
redis_host = record {
  key = "REDIS_HOST";
  label = "Redis 호스트";
  group = "redis";
  kind = text;
  default_value = "localhost";
  placeholder = "localhost";
  required = true;
  options = none;
  auto_generate = none;
  auto_generate_length = none;
  description = some "Redis 서버 호스트 주소";
  hide_when_env = none;
}

abbrev redis_port : EnvDefinition
redis_port = record {
  key = "REDIS_PORT";
  label = "Redis 포트";
  group = "redis";
  kind = number;
  default_value = "6379";
  placeholder = "6379";
  required = true;
  options = none;
  auto_generate = none;
  auto_generate_length = none;
  description = some "Redis 서버 포트 번호";
  hide_when_env = none;
}

abbrev redis_password : EnvDefinition
redis_password = record {
  key = "REDIS_PASSWORD";
  label = "Redis 비밀번호";
  group = "redis";
  kind = password_;
  default_value = "";
  placeholder = "비밀번호 (없으면 비워두세요)";
  required = false;
  options = none;
  auto_generate = none;
  auto_generate_length = none;
  description = some "Redis 인증 비밀번호 (선택)";
  hide_when_env = none;
}

abbrev pub server_definitions : List EnvDefinition
server_definitions =
    node_env ∷ port ∷ api_version ∷ db_host ∷ db_port ∷ db_user ∷ db_password ∷ db_name ∷ redis_mode
    ∷ redis_host ∷ redis_port ∷ redis_password ∷ []
